-- ===== src/Server/Start/Serving.antt =====
-- When `main` comes to serve requests.
use attestation.Common.{
  ◌≡◌, ◌↔◌, ◌∙◌, sym, ap, refl, Bool, true, false, Option, none, some, List, [], ◌∷◌, Bool-cases,
  Option-cases, inl, inr,
}
use attestation.Server.Data.{AppState}
use attestation.Server.Start.{
  Machine, Action, run, spawn_bridge, assign_address, link_up, Ended, panicked, failed, serving,
  succeeds, bind_text, setup_loopback, listen, main,
}

-- With the device file, both commands succeed and the bridge is started behind them; without it nothing
-- is run. The address parses and is bound, and the state holds the key that was generated.
pub record IsServing (m : Machine) (acts : List Action) (state : AppState)
    (addr : Machine.SocketAddr m) : Type 0 where
  pub inside :
      Machine.vsock_device m ≡ true
      → (Machine.status m assign_address ≡ some true)
        × (Machine.status m link_up ≡ some true)
        × (acts ≡ run assign_address ∷ run link_up ∷ spawn_bridge 3000 3000 ∷ [])
  pub outside : Machine.vsock_device m ≡ false → acts ≡ []
  pub parses : Machine.parse_addr m (bind_text m (Machine.enclave_bind m)) ≡ some addr
  pub binds : Machine.bind m addr ≡ true
  pub key : state ≡ record { verifying_key = Machine.generated m }

succeeds_iff : (o : Option Bool) → (succeeds o ≡ true) ↔ (o ≡ some true)
succeeds_iff none = ((λ h. cc), (λ h. cc))
succeeds_iff (some true) = ((λ _. refl), (λ _. refl))
succeeds_iff (some false) = ((λ h. cc), (λ h. cc))

module _ (m : Machine) where
  open m use {vsock_device, status, generated, enclave_bind, SocketAddr, parse_addr, bind}

  listen_unparsed : parse_addr (bind_text m enclave_bind) ≡ none → listen m ≡ failed
  unfolding listen
  listen_unparsed h = rw (h, listen) refl

  listen_unbound :
      (addr : SocketAddr)
      → parse_addr (bind_text m enclave_bind) ≡ some addr
      → bind addr ≡ false
      → listen m ≡ failed
  unfolding listen
  listen_unbound addr h unbound = rw (h, unbound, listen) refl

  listen_bound :
      (addr : SocketAddr)
      → parse_addr (bind_text m enclave_bind) ≡ some addr
      → bind addr ≡ true
      → listen m ≡ serving (record { verifying_key = generated }) addr
  unfolding listen
  listen_bound addr h bound = rw (h, bound, listen) refl

  -- The part behind the loopback serves exactly on an address that parses and is bound.
  listen_iff :
      (state : AppState) (addr : SocketAddr)
      → (listen m ≡ serving state addr) ↔ (
          (parse_addr (bind_text m enclave_bind) ≡ some addr)
          × (bind addr ≡ true)
          × (state ≡ record { verifying_key = generated }))
  listen_iff state addr = (
    (λ h. elim (Option-cases (parse_addr (bind_text m enclave_bind))) [
      | inl missing ↦ cc (listen_unparsed missing, h)
      | inr (found, parses) ↦ elim (Bool-cases (bind found)) [
        | inl bound ↦
            let made = listen_bound found parses bound in
            let same : found ≡ addr = cc in (parses ∙ ap some same, sym (ap bind same) ∙ bound, cc)
        | inr unbound ↦ cc (listen_unbound found parses unbound, h)
      ]
    ]),
    (λ (parses, binds, key). listen_bound addr parses binds ∙ cc key),
  )

  main_up :
      vsock_device ≡ true
      → succeeds (status assign_address) ≡ true
      → succeeds (status link_up) ≡ true
      → main m ≡ (run assign_address ∷ run link_up ∷ spawn_bridge 3000 3000 ∷ [], listen m)
  unfolding main setup_loopback
  main_up device assigned up = rw (device, assigned, up, main, setup_loopback) refl

  main_down :
      vsock_device ≡ true
      → succeeds (status assign_address) ≡ true
      → succeeds (status link_up) ≡ false
      → main m ≡ (run assign_address ∷ run link_up ∷ [], panicked)
  unfolding main setup_loopback
  main_down device assigned down = rw (device, assigned, down, main, setup_loopback) refl

  main_unassigned :
      vsock_device ≡ true
      → succeeds (status assign_address) ≡ false
      → main m ≡ (run assign_address ∷ [], panicked)
  unfolding main setup_loopback
  main_unassigned device unassigned = rw (device, unassigned, main, setup_loopback) refl

  main_outside : vsock_device ≡ false → main m ≡ ([], listen m)
  unfolding main
  main_outside outside = rw (outside, main) refl

  served :
      {acts : List Action} {state : AppState} {addr : SocketAddr} (commands : List Action)
      → main m ≡ (commands, listen m)
      → main m ≡ (acts, serving state addr)
      → (acts ≡ commands) × (listen m ≡ serving state addr)
  served commands shape h =
      let same = sym shape ∙ h in
      (
        sym (ap (λ (r : List Action × Ended SocketAddr). r.0) same),
        ap (λ (r : List Action × Ended SocketAddr). r.1) same,
      )

  inside_served :
      (acts : List Action) (state : AppState) (addr : SocketAddr)
      → vsock_device ≡ true
      → main m ≡ (acts, serving state addr)
      → IsServing m acts state addr
  inside_served acts state addr device h = elim (Bool-cases (succeeds (status assign_address))) [
    | inr unassigned ↦ cc (main_unassigned device unassigned, h)
    | inl assigned ↦ elim (Bool-cases (succeeds (status link_up))) [
      | inr down ↦ cc (main_down device assigned down, h)
      | inl up ↦
          let (same, listens) = served _ (main_up device assigned up) h in
          let (parses, binds, key) = (listen_iff state addr).0 listens in
          record {
            inside = λ _. ((succeeds_iff _).0 assigned, (succeeds_iff _).0 up, same);
            outside = λ none_there. cc;
            parses = parses;
            binds = binds;
            key = key;
          }
    ]
  ]

  outside_served :
      (acts : List Action) (state : AppState) (addr : SocketAddr)
      → vsock_device ≡ false
      → main m ≡ (acts, serving state addr)
      → IsServing m acts state addr
  outside_served acts state addr device h =
      let (same, listens) = served _ (main_outside device) h in
      let (parses, binds, key) = (listen_iff state addr).0 listens in
      record {
        inside = λ there. cc;
        outside = λ _. same;
        parses = parses;
        binds = binds;
        key = key;
      }

  IsServing-main :
      (acts : List Action) (state : AppState) (addr : SocketAddr)
      → IsServing m acts state addr
      → main m ≡ (acts, serving state addr)
  IsServing-main acts state addr s =
      let listens = (listen_iff state addr).1 (s.parses, s.binds, s.key) in
      elim (Bool-cases vsock_device) [
        | inl device ↦
            let (assigned, up, same) = s.inside device in
            main_up device ((succeeds_iff _).1 assigned) ((succeeds_iff _).1 up)
            ∙ cc (same, listens)
        | inr none_there ↦ main_outside none_there ∙ cc (s.outside none_there, listens)
      ]

  -- `main` comes to serve exactly so: inside an enclave behind both commands and the bridge, outside with
  -- neither, on the address that the variable or its default gives, with the key that was generated.
  pub main_iff :
      (acts : List Action) (state : AppState) (addr : SocketAddr)
      → (main m ≡ (acts, serving state addr)) ↔ IsServing m acts state addr
  main_iff acts state addr = (
    (λ h. elim (Bool-cases vsock_device) [
      | inl device ↦ inside_served acts state addr device h
      | inr none_there ↦ outside_served acts state addr none_there h
    ]),
    IsServing-main acts state addr,
  )
