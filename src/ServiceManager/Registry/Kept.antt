-- ===== src/ServiceManager/Registry/Kept.antt =====
-- What every add request and death notice keeps of the list of services (native/service_manager.c).
use learn_node.Base.{
  ℕ, ◌+◌, ◌≡◌, refl, ap, ◌∙◌, fun_ext, ◌≢◌, Bool, Option, none, List, [], ◌∷◌, ◌++◌, ltb, ◌==◌,
  length, ◌||◌, arith, Bool-cases, inl, inr,
}
use learn_node.IpcThreadState.{Command}
use learn_node.ServiceManager.{
  Platform, SvcInfo, svc_can_register, find_svc, svcinfo_death, do_add_service,
}
use learn_node.ServiceManager.Registry.{
  Event, add_request, death_notice, step, svc_run, IsFree, IsFresh, Registry, spec_step, spec_run,
  acquires, releases, holders, find_svc-lookup, lookup, AreDistinct,
}
use learn_node.ServiceManager.Registry.Handles.{acquires-append, releases-append}
use learn_node.ServiceManager.Registry.Keeps.{Keeps, same-Keeps, death-Keeps, register-Keeps}

module _ (p : Platform) where
  pub add-Keeps :
      (sh : ℕ) (memory : Option ℕ) (name tail : List ℕ) (handle uid : ℕ) (allow : Bool) (spid : ℕ)
      (l : List SvcInfo)
      → AreDistinct l
      → IsFree memory l
      → let e = add_request sh memory name tail handle uid allow spid in
        Keeps l (spec_step p (λ n. lookup n l) e) (step p l e)
  unfolding step do_add_service
  add-Keeps sh memory name tail handle uid allow spid l d free =
      elim (Bool-cases (handle == 0 || length name == 0 || ltb 127 (length name))) [
        | inl bad ↦ rw bad (same-Keeps l _ d (λ n. refl))
        | inr good ↦
            elim (Bool-cases (svc_can_register p sh (name ++ tail) (length name) spid uid)) [
              | inl may ↦
                  rw (good, may, find_svc-lookup name tail l)
                    (register-Keeps memory name tail handle allow l (lookup name l) d free refl)
              | inr not_may ↦ rw (good, not_may) (same-Keeps l _ d (λ n. refl))
            ]
      ]

  chain-Keeps :
      (es : List Event) (l l' l'' : List SvcInfo) (cs ds : List Command) (r : Registry)
      → Keeps l r (l', cs)
      → Keeps l' (spec_run p (λ n. lookup n l') es) (l'', ds)
      → Keeps l (spec_run p r es) (l'', cs ++ ds)
  chain-Keeps es l l' l'' cs ds r first rest = (
    rest.0,
    λ n. rest.1 n ∙ ap (λ q. spec_run p q es n) (fun_ext first.1),
    λ h q. omega (arith, first.2 h q, rest.2 h q, acquires-append h cs ds, releases-append h cs ds),
  )

  -- Registration through any sequence of requests and death notices.
  run-Keeps :
      (es : List Event) (l : List SvcInfo)
      → AreDistinct l
      → IsFresh p l es
      → Keeps l (spec_run p (λ n. lookup n l) es) (svc_run p l es)
  unfolding svc_run step svcinfo_death
  run-Keeps [] l d fresh = same-Keeps l _ d (λ n. refl)
  run-Keeps (add_request sh memory name tail handle uid allow spid ∷ es) l d fresh =
      let e = add_request sh memory name tail handle uid allow spid in
      let first = add-Keeps sh memory name tail handle uid allow spid l d fresh.0 in
      chain-Keeps es l (step p l e).0 (svc_run p (step p l e).0 es).0 (step p l e).1
        (svc_run p (step p l e).0 es).1 (spec_step p (λ n. lookup n l) e) first
        (run-Keeps es (step p l e).0 first.0 fresh.1)
  run-Keeps (death_notice ptr ∷ es) l d fresh =
      let e = death_notice ptr in
      let first = death-Keeps ptr l d in
      chain-Keeps es l (step p l e).0 (svc_run p (step p l e).0 es).0 (step p l e).1
        (svc_run p (step p l e).0 es).1 (spec_step p (λ n. lookup n l) e) first
        (run-Keeps es (step p l e).0 first.0 fresh)

  -- Started with no service, and through any sequence of add requests and death notices, if malloc
  -- gives no address that is in use: find_svc sees, under every name, what a map from names to
  -- services has in which an add that is let through enters or replaces the handle of its name alone,
  -- and a death notice takes the handle of its service away; and the acquires of a handle that was
  -- written to the driver are as many as its releases and the services that have it now.
  pub svc_run-registry :
      (es : List Event)
      → IsFresh p [] es
      → let (l, cs) = svc_run p [] es in
        ((n tail : List ℕ) → find_svc (n ++ tail) (length n) l ≡ spec_run p (λ m. none) es n)
        × ((h : ℕ) → h ≢ 0 → acquires h cs ≡ releases h cs + holders h l)
  unfolding lookup
  svc_run-registry es fresh =
      let kept = run-Keeps es [] tt fresh in
      (
        λ n tail. find_svc-lookup n tail (svc_run p [] es).0 ∙ kept.1 n,
        λ h q. omega (arith, kept.2 h q),
      )
