-- ===== src/Provisioning/Server/Endings.antt =====
-- How sessions end, and what an exception in a thread leaves behind.
use backend_client.Base.{
  ℕ, ◌≡◌, refl, sym, ap, ◌∙◌, Bool, true, false, ◌||◌, Option, none, some, List, [], ◌∷◌, map,
  arith, inl, inr, nat_eq, ◌==◌, Bool-cases, Option-cases, if◌then◌else◌,
}
use backend_client.Base.Dict.{Dict, lookup, erase, IsDict, lookup-erase_self, lookup-erase_ne}
use backend_client.Provisioning.Message.{MessageId}
use backend_client.Provisioning.Machine.Defs.{Crypto}
use backend_client.Provisioning.Server.{
  id_eq, Session, Server, end_session, end_sessions, sweep, is_over,
}
use backend_client.Provisioning.Server.Routing.{IsServer, end_session-IsServer}

-- A session that is still under way.
abbrev pub live : Dict ℕ Session → Option ℕ → Option ℕ
live objects none = none
live objects (some r) = if is_over (lookup r objects) then none else some r

live-live :
    (objects : Dict ℕ Session) (o : Option ℕ) → live objects (live objects o) ≡ live objects o
live-live objects none = refl
live-live objects (some r) = ground arith

-- What one round of the loop does to the entry of its key, and to the others.
end_session-sessions :
    (id j : MessageId) (s : Server)
    → IsDict s.sessions
    → ((end_session id s).objects ≡ s.objects)
      × (lookup j (end_session id s).sessions
          ≡ (if j == id then live s.objects (lookup j s.sessions) else lookup j s.sessions))
unfolding end_session
end_session-sessions id j s d = elim (Option-cases (lookup id s.sessions)) [
  | inl missing ↦
      rw (end_session, missing)
        (
          refl,
          at_key (lookup j s.sessions) (λ p. at_id p ∙ missing ∙ ap (live s.objects) (sym missing))
              (λ p. refl),
        )
  | inr (r, found) ↦ elim (Bool-cases (is_over (lookup r s.objects))) [
    | inl over ↦
        let gone : live s.objects (some r) ≡ none = rw over refl in
        rw (end_session, found, over)
          (
            refl,
            at_key (lookup j (erase id s.sessions))
                (λ p.
                  ap (λ k. lookup k (erase id s.sessions)) p
                  ∙ lookup-erase_self id s.sessions d
                  ∙ sym (ap (live s.objects) found ∙ gone))
                (lookup-erase_ne j id s.sessions),
          )
    | inr live' ↦
        let stays : live s.objects (some r) ≡ some r = rw live' refl in
        rw (end_session, found, live')
          (
            refl,
            at_key (lookup j s.sessions)
                (λ p. at_id p ∙ found ∙ sym (ap (live s.objects) found ∙ stays)) (λ p. refl),
          )
  ]
]
  where
    at_id : j ≡ id → lookup j s.sessions ≡ lookup id s.sessions
    at_id p = ap (λ k. lookup k s.sessions) p

    at_key :
        (x : Option ℕ)
        → (j ≡ id → x ≡ live s.objects (lookup id s.sessions))
        → ((j == id) ≡ false → x ≡ lookup j s.sessions)
        → x ≡ (if j == id then live s.objects (lookup j s.sessions) else lookup j s.sessions)
    at_key x self other = elim (Bool-cases (j == id)) [
      | inl p ↦
          let q = (id_eq.beq_iff j id).0 p in rw p (self q ∙ ap (live s.objects) (sym (at_id q)))
      | inr p ↦ rw p (other p)
    ]

-- Whether a key is in the list.
abbrev listed : MessageId → List MessageId → Bool
listed j [] = false
listed j (id ∷ ids) = j == id || listed j ids

listed-keys :
    (j : MessageId) (d : Dict MessageId ℕ) → listed j (map (λ p. p.0) d) ≡ false → lookup j d ≡ none
listed-keys j [] h = refl
listed-keys j ((id, r) ∷ d) h = elim (Bool-cases (j == id)) [
  | inl same ↦ absurd (cc (same, h))
  | inr other ↦ rw other (listed-keys j d (rw other at h))
]

twice :
    (a b : Bool) (objects objects' : Dict ℕ Session) (x y : Option ℕ)
    → objects' ≡ objects
    → x ≡ (if a then live objects y else y)
    → (if b then live objects' x else x) ≡ (if a || b then live objects y else y)
twice true true objects objects' x y p q =
    ap (λ d. live d x) p ∙ ap (live objects) q ∙ live-live objects y
twice true false objects objects' x y p q = q
twice false true objects objects' x y p q = ap (λ d. live d x) p ∙ ap (live objects) q
twice false false objects objects' x y p q = q

module _ (crypto : Crypto) where
  end_sessions-sessions :
      (ids : List MessageId) (j : MessageId) (s : Server)
      → IsServer crypto s
      → ((end_sessions ids s).objects ≡ s.objects)
        × (lookup j (end_sessions ids s).sessions
            ≡ (if listed j ids then live s.objects (lookup j s.sessions) else lookup j s.sessions))
  unfolding end_sessions
  end_sessions-sessions [] j s i = (refl, refl)
  end_sessions-sessions (id ∷ ids) j s i =
      let s1 = end_session id s in
      let (objects, first) = end_session-sessions id j s i.distinct in
      let (more, rest) = end_sessions-sessions ids j s1 (end_session-IsServer crypto id s i) in
      (
        more ∙ objects,
        rest
            ∙ twice (j == id) (listed j ids) s.objects s1.objects (lookup j s1.sessions)
                (lookup j s.sessions) objects first,
      )

  -- After a round of `loop` that no other thread interrupts, `sessions` holds exactly the sessions
  -- whose status is ONGOING of those that it held, under the same keys; the machines are as they were.
  -- The server is well-formed.
  pub sweep-sessions :
      (s : Server) (j : MessageId)
      → IsServer crypto s
      → ((sweep s).objects ≡ s.objects)
        × (lookup j (sweep s).sessions ≡ live s.objects (lookup j s.sessions))
  unfolding sweep
  sweep-sessions s j i =
      let ids : List MessageId = map (λ p. p.0) s.sessions in
      let (objects, kept) = end_sessions-sessions ids j s i in
      (
        objects,
        kept ∙ elim (Bool-cases (listed j ids)) [
          | inl there ↦ rw there refl
          | inr not_there ↦
              let gone = listed-keys j s.sessions not_there in
              rw not_there (gone ∙ ap (live s.objects) (sym gone))
        ],
      )
