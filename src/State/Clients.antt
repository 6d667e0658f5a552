-- ===== src/State/Clients.antt =====
-- Clients that come and go: `add_client`, `get_client` and `remove_client` of src/state.rs.
use direlera_rs.Prelude.{ℕ, ◌≡◌, ◌≢◌, refl, none, some, nat_eq, Option-cases, inl, inr, sym, ◌∙◌}
use direlera_rs.Dict.{lookup}
use direlera_rs.State.{ClientInfo, AppState, get_client, add_client, remove_client, without}
use direlera_rs.State.Linked.{IsLinked}
use direlera_rs.State.Lookup.{
  lookup-insert_cases, lookup-insert_self, lookup-insert_other, lookup-remove_cases,
  lookup-remove_self, lookup-remove_other,
}

module _ (s : AppState) (addr : ℕ) (c : ClientInfo) (v : IsLinked s)
    (free : lookup addr s.clients_by_addr ≡ none)
    (fresh : lookup c.session_id s.clients_by_id ≡ none) where
  unused : (a : ℕ) → lookup a s.clients_by_addr ≢ some c.session_id
  unused a e = let (d, k) = v.known a c.session_id e in cc

  add_client-IsLinked : IsLinked (add_client s addr c)
  unfolding add_client
  add_client-IsLinked = record { known = known; one_addr = one_addr; reached = reached }
    where
      known :
          (a id : ℕ)
          → lookup a (add_client s addr c).clients_by_addr ≡ some id
          → (d : ClientInfo) × (lookup id (add_client s addr c).clients_by_id ≡ some d)
      known a id e = elim (lookup-insert_cases addr a c.session_id id s.clients_by_addr e) [
        | inl (p, q) ↦ (c, rw (← q) (lookup-insert_self c.session_id c s.clients_by_id))
        | inr (p, q) ↦
            let (d, k) = v.known a id q in
            (d, lookup-insert_other c.session_id id c s.clients_by_id (λ z. cc) ∙ k)
      ]

      one_addr :
          (a b id : ℕ)
          → lookup a (add_client s addr c).clients_by_addr ≡ some id
          → lookup b (add_client s addr c).clients_by_addr ≡ some id
          → a ≡ b
      one_addr a b id e f = elim (lookup-insert_cases addr a c.session_id id s.clients_by_addr e) [
        | inl (p, q) ↦ elim (lookup-insert_cases addr b c.session_id id s.clients_by_addr f) [
          | inl (p', q') ↦ sym p ∙ p'
          | inr (p', q') ↦ absurd (unused b (rw q q'))
        ]
        | inr (p, q) ↦ elim (lookup-insert_cases addr b c.session_id id s.clients_by_addr f) [
          | inl (p', q') ↦ absurd (unused a (rw q' q))
          | inr (p', q') ↦ v.one_addr a b id q q'
        ]
      ]

      reached :
          (id : ℕ) (d : ClientInfo)
          → lookup id (add_client s addr c).clients_by_id ≡ some d
          → (a : ℕ) × (lookup a (add_client s addr c).clients_by_addr ≡ some id)
      reached id d e = elim (lookup-insert_cases c.session_id id c d s.clients_by_id e) [
        | inl (p, q) ↦ (addr, rw (← p) (lookup-insert_self addr c.session_id s.clients_by_addr))
        | inr (p, q) ↦
            let (a, k) = v.reached id d q in
            (a, lookup-insert_other addr a c.session_id s.clients_by_addr (λ z. cc) ∙ k)
      ]

  -- Where the two maps agree, a client that is added at an address without a client, under a new
  -- session, is found at this address; what the other addresses lead to does not change, and the maps still agree.
  pub get_client-add :
      (get_client (add_client s addr c) addr ≡ some c)
      × ((b : ℕ) → b ≢ addr → get_client (add_client s addr c) b ≡ get_client s b)
      × IsLinked (add_client s addr c)
  unfolding get_client add_client
  get_client-add = (
    rw (lookup-insert_self addr c.session_id s.clients_by_addr)
        (lookup-insert_self c.session_id c s.clients_by_id),
    (λ b h.
        rw (lookup-insert_other addr b c.session_id s.clients_by_addr (λ z. h (sym z)))
          (elim (Option-cases (lookup b s.clients_by_addr)) [
            | inl e ↦ rw e refl
            | inr (id, e) ↦
                rw e
                  (lookup-insert_other c.session_id id c s.clients_by_id (λ z. unused b (rw z e)))
          ])),
    add_client-IsLinked,
  )

module _ (s : AppState) (addr id : ℕ) (v : IsLinked s)
    (there : lookup addr s.clients_by_addr ≡ some id) where
  without-IsLinked : IsLinked (without s addr id)
  without-IsLinked = record {
    known = λ a j e.
        let (p, q) = lookup-remove_cases addr a j s.clients_by_addr e in
        let (d, k) = v.known a j q in
        (
          d,
          lookup-remove_other id j s.clients_by_id (λ z. p (v.one_addr addr a id there (rw z q)))
              ∙ k,
        );
    one_addr = λ a b j e f.
        v.one_addr a b j (lookup-remove_cases addr a j s.clients_by_addr e).1
          (lookup-remove_cases addr b j s.clients_by_addr f).1;
    reached = λ j d e.
        let (p, q) = lookup-remove_cases id j d s.clients_by_id e in
        let (a, k) = v.reached j d q in
        (
          a,
          lookup-remove_other addr a s.clients_by_addr
                (λ z. p (let w : some id ≡ some j = sym there ∙ rw z k in cc))
              ∙ k,
        );
  }

  without-other : (b : ℕ) → b ≢ addr → get_client (without s addr id) b ≡ get_client s b
  unfolding get_client
  without-other b h =
      rw (lookup-remove_other addr b s.clients_by_addr (λ z. h (sym z)))
        (elim (Option-cases (lookup b s.clients_by_addr)) [
          | inl e ↦ rw e refl
          | inr (j, e) ↦ rw e (
              lookup-remove_other id j s.clients_by_id
                (λ z. h (v.one_addr b addr j e (rw z at there))))
        ])

-- Where the two maps agree, the removal of a client gives what was found at its address, after which nothing is found there; the
-- other addresses lead to the same clients as before, and the maps still agree.
pub get_client-remove :
    (s : AppState) (addr : ℕ)
    → IsLinked s
    → ((remove_client s addr).0 ≡ get_client s addr)
      × (get_client (remove_client s addr).1 addr ≡ none)
      × ((b : ℕ) → b ≢ addr → get_client (remove_client s addr).1 b ≡ get_client s b)
      × IsLinked (remove_client s addr).1
unfolding remove_client get_client
get_client-remove s addr v = elim (Option-cases (lookup addr s.clients_by_addr)) [
  | inl e ↦ rw e (refl, rw e refl, (λ b h. refl), v)
  | inr (id, e) ↦ rw e (refl, gone id, without-other s addr id v e, without-IsLinked s addr id v e)
]
  where
    gone : (id : ℕ) → get_client (without s addr id) addr ≡ none
    gone id = rw (lookup-remove_self addr s.clients_by_addr) refl
