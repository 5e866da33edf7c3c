-- ===== src/Lib.antt =====
-- Binder, the inter-process calls of Android, and the start of its runtime, as the C and C++ sources of
-- "2 FrameWork与Android内核/1 FrameWork通信/Binder4层源码" have them. Paths below start there.
--
-- The parts and how they interact. A process has one ProcessState, which opens the driver, keeps the
-- table of proxies by handle and starts the threads of the pool. A BpBinder is the proxy of an object
-- in another process; it has a weak reference on its handle, keeps the recipients that want to hear
-- of the death of the object, and asks the driver for its notification. Each thread has an
-- IPCThreadState, whose two buffers hold commands for the driver and messages from it; transact
-- writes a command and waits for its reply, and executes on the way what the driver asks for, up to
-- a whole incoming transaction. AndroidRuntime makes the options of the Java VM out of the properties
-- of the device, and starts it; jni/android_util_Binder.cpp gives Binder to Java. The service
-- manager is
-- a C program that keeps the names of services for all processes, and talks to the driver through
-- native/binder.c. The driver gives each process numbers for the objects of others, counts who refers
-- to an object, and has a region of buffers for what is sent to a process.
--
-- Which file models which part:
-- - Base (Base/Tests, Base/Lists): shared names, Boolean tests, lists over the native numbers.
-- - Status: status_t of the Binder sources. IpcCall: the calls of IPCThreadState that a proxy makes.
-- - BpBinder: native/BpBinder.cpp. linkToDeath is link_to_death, unlinkToDeath is unlink_to_death,
--   sendObituary is send_obituary (its two halves are obituary_begin and obituary_locked), the
--   destructor is destroy. BpBinder/Objects is the ObjectManager, BpBinder/Transact has transact,
--   pingBinder, dump and getInterfaceDescriptor, BpBinder/DeathDriver what
--   BC_REQUEST_DEATH_NOTIFICATION
--   and BC_CLEAR_DEATH_NOTIFICATION of driver/binder.c do to the cookie of one reference (the
--   memory that the driver may lack and the delivery of the notification are left out), and
--   BpBinder/Obituaries the threads that race on one proxy, as steps under its lock.
-- - ProcessState: the table of proxies of native/ProcessState.cpp (lookupHandleLocked,
--   getStrongProxyForHandle, getWeakProxyForHandle, expungeHandle; Handles and Links are about it);
--   ProcessState/Pool has startThreadPool and spawnPooledThread, ProcessState/Contexts the named
--   context objects and becomeContextManager, ProcessState/Driver open_driver and the constructor.
-- - IpcThreadState: native/IPCThreadState.cpp. A Thread is the object's fields with what the driver
--   will answer, what was sent to it, and the messages that waitForResponse took. IpcThreadState/Driver has talkWithDriver and flushCommands,
--   IpcThreadState/Execute executeCommand, sendReply, waitForResponse and transact,
--   IpcThreadState/Looper getAndExecuteCommand, joinThreadPool, the polling calls and stopProcess.
-- - AndroidRuntime: jni/AndroidRuntime.cpp. AndroidRuntime/Options has addOption, parseExtraOpts and
--   the functions that make options of properties, AndroidRuntime/Locale readLocale,
--   AndroidRuntime/StartVm startVm, AndroidRuntime/Names the functions on names, AndroidRuntime/Threads
--   callMain, the registration of native methods and the shell of a thread, AndroidRuntime/Start start
--   and exit.
-- - BinderJni: jni/android_util_Binder.cpp. BinderJni/Identity has the token of the calling identity
--   (the arithmetic is in native/IPCThreadState.cpp), BinderJni/Errors the exceptions and transact of
--   a BinderProxy, BinderJni/EventLog the entries of the event log, BinderJni/Recipients the
--   JavaDeathRecipient objects, their DeathRecipientList, and linkToDeath and unlinkToDeath of a
--   BinderProxy.
--
-- - BinderIo: the binder_io of native/binder.c, in which messages are written and read;
--   BinderIo/Items has messages as lists of items, put in and got out in one order; what comes out is
--   the message as the driver delivers it (BinderDriver/Objects).
-- - ServiceManager: native/service_manager.c. The functions have the source's names; svcmgr_handler is
--   dispatch behind its tests of the target and of the interface's name. ServiceManager/Registry has
--   the sequences of requests and death notices, ServiceManager/Registry/Kept what they keep (from
--   Handles and Keeps beside it), and
--   ServiceManager/Registry/TwoNames the commands of two requests as driver/binder.c executes them;
--   ServiceManager/Wire has requests as messages of BinderIo, and Served below it an add and a find.
-- - BinderDriver: driver/binder.c. A BinderNode and a BinderRef are the counts of their structures.
--   BinderDriver/Nodes has a node with all references to it, what its process reads of it and answers
--   (BINDER_WORK_NODE of binder_thread_read, BC_INCREFS_DONE, BC_ACQUIRE_DONE), and the end of that
--   process (binder_node_release); Counts, Owner, Places, Backed,
--   Steps and Run below it are about the counts.
--   BinderDriver/Objects has the loop of binder_transaction over the objects of a message, which
--   rewrites a handle or a binder for the receiver; the tables of both processes are its argument
--   (Translation), and the counts that it raises are those of BinderDriver/Nodes.
--   BinderDriver/Descs the references of a process by number and the commands on them
--   (BinderDriver/Descs/Numbers is about the numbers), BinderDriver/Buffers binder_alloc_buf and
--   binder_free_buf, with the pages that they ask for as values; Layout, Alloc, Release and Run
--   below it are about where buffers lie. BinderDriver/Pages has binder_update_page_range, which is
--   asked for them; Marked, Range and AllOrNone below it are about the pages it leaves.
--
-- What stands for what. A pointer is its address, and null is 0. A buffer of Parcel that holds commands
-- or messages is the list of them, each with its operands, so a message that is cut short by the
-- driver does not occur; the driver writes whole messages. Other code is an argument: the driver is
-- the list of its answers (Answer), objects and the receivers of obituaries are functions of a Process
-- that may do anything to the thread, memory that may be short is a flag, the Java VM is what it
-- answers. Logging is left out.
--
-- Fuel. waitForResponse, joinThreadPool and handlePolledCommands count rounds of their loop, since a
-- driver that keeps sending keeps them going. A wait for an answer that never comes is `blocked`, not
-- the end of the fuel. A round of the first two uses up a message or an answer, so their bound is the
-- number of both and one more (IpcThreadState/Execute/Wait and IpcThreadState/Looper/Rounds);
-- handlePolledCommands has no bound where the driver was closed (IpcThreadState/Looper/Polled).
-- parseExtraOpts has a unit of fuel for each byte of its buffer and one more, since each round takes a
-- byte at least (AndroidRuntime/Options/Words). All else is structural.
--
-- Not modelled: Parcel and jni/android_os_Parcel.cpp; in jni/android_util_Binder.cpp the objects that
-- tie Java objects to binders (JavaBBinder, javaObjectForIBinder), and destroy of a BinderProxy;
-- native/android_util_Binder.cpp, an older copy of it; the start of threads of AndroidRuntime; the
-- printing of commands; of driver/binder.c the queues, threads and replies of a transaction, the
-- delivery of messages to a thread, and the rest of the end of a process; of native/binder.c the loop and what it
-- writes; main of native/service_manager.c; native/bctest.c, the Java classes of framework/, init.rc,
-- and the notes.
pub mod Base
pub mod Status
pub mod IpcCall
pub mod BpBinder
pub mod ProcessState
pub mod IpcThreadState
pub mod AndroidRuntime
pub mod BinderJni
pub mod BinderIo
pub mod ServiceManager
pub mod BinderDriver
