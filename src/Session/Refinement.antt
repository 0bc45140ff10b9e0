-- ===== src/Session/Refinement.antt =====
-- The store in memory keeps the contract of Session/Contract.antt.
use m_agent.Base.{
  ℕ, ◌+◌, String, ◌≡◌, refl, sym, subst, Option, none, some, List, [], ◌∷◌, ◌++◌, ◌&&◌, arith, ◌==◌,
  ◌==ℕ◌, String_eq, pair_eq, length, inl, inr, Result, ok, err, Bool-cases, Option-cases, ==-cases,
  if◌then◌else◌,
}
use m_agent.Base.Dict.{get, put, get-put}
use m_agent.Errors.{
  Error, session_not_found, duplicate_session, session_claim_conflict, session_version_conflict,
  value_error,
}
use m_agent.Session.Model.{SessionTurn, SessionRunClaim, committed, conflict}
use m_agent.Session.Store.{
  StoredSession, SessionStore, is_blank, existing_turn, is_claimed_by, differs, is_no_page, lookup,
  to_snapshot, create_session, claim_run, release_claim, commit_turn, find_turn_by_run,
  read_snapshot,
}
use m_agent.Session.Effect.{SessionCall, forget, apply, apply_all, fresh_session, lookup-cases}
use m_agent.Session.Effect as Effect
use m_agent.Session.Invariant.{IsSession, IsValid, apply_all-IsValid}
use m_agent.Session.Contract.{
  Request, create, claim, release, commit, find, read, Answer, done, claimed, settled, found,
  page_of, Conversations, key_of, reply, specified, specified_all, answered, performed,
  performed_all, view, view_some,
}

-- One request: the same answer, and the session that the contract names, all others as they were.
pub record Agrees (q : Request) (s : SessionStore) : Type 0 where
  pub answer : (performed q s).0 ≡ (reply q (view_some (get (key_of q) s))).0
  pub state :
      (k : String × String)
      → view_some (get k (performed q s).1) ≡ (
          if key_of q == k then (reply q (view_some (get (key_of q) s))).1 else view_some (get k s))

module _ (q : Request) (s : SessionStore) (result : Result Error Answer) where
  keeps :
      performed q s ≡ (result, s)
      → reply q (view_some (get (key_of q) s)) ≡ (result, view_some (get (key_of q) s))
      → Agrees q s
  keeps returns replies = record {
    answer = rw (returns, replies) refl;
    state = λ k. elim (==-cases {A = String × String} (key_of q) k) [
      | inl (e, t) ↦ rw (returns, replies, t, e) refl
      | inr (n, f) ↦ rw (returns, replies, f) refl
    ];
  }

  writes :
      (stored : StoredSession)
      → performed q s ≡ (result, put (key_of q) stored s)
      → reply q (view_some (get (key_of q) s)) ≡ (result, some (view stored))
      → Agrees q s
  writes stored returns replies = record {
    answer = rw (returns, replies) refl;
    state = λ k. rw (returns, replies, get-put (key_of q) k stored s) (ground arith);
  }

module _ (scope id : String) (s : SessionStore) where
  create-Agrees : (now : ℕ) → Agrees (create scope id now) s
  unfolding performed create_session reply
  create-Agrees now =
      let q = create scope id now in
      elim (Option-cases (get (scope, id) s)) [
        | inl missing ↦ elim (Bool-cases (is_blank id)) [
          | inl blank ↦ keeps q s (err value_error) (ground arith) (ground arith)
          | inr named ↦ writes q s (ok done) (fresh_session id now) (ground arith) (ground arith)
        ]
        | inr (stored, there) ↦ elim (Bool-cases (is_blank id)) [
          | inl blank ↦ keeps q s (err value_error) (ground arith) (ground arith)
          | inr named ↦ keeps q s (err duplicate_session) (ground arith) (ground arith)
        ]
      ]

  module _ (missing : get (scope, id) s ≡ none) where
    lookup_missing : lookup scope id s ≡ (err session_not_found, s)
    unfolding lookup
    lookup_missing = ground arith

    claim-missing : (r : String) (v now later : ℕ) → Agrees (claim scope id r v now later) s
    unfolding performed claim_run reply
    claim-missing r v now later =
        keeps (claim scope id r v now later) s (err session_not_found)
          (ground (arith, lookup_missing)) (ground arith)

    release-missing : (r : String) (now : ℕ) → Agrees (release scope id r now) s
    unfolding performed release_claim reply
    release-missing r now =
        keeps (release scope id r now) s (err session_not_found) (ground (arith, lookup_missing))
          (ground arith)

    commit-missing : (turn : SessionTurn) (v now : ℕ) → Agrees (commit scope id turn v now) s
    unfolding performed commit_turn reply
    commit-missing turn v now =
        keeps (commit scope id turn v now) s (err session_not_found)
          (ground (arith, lookup_missing)) (ground arith)

    find-missing : (r : String) → Agrees (find scope id r) s
    unfolding performed find_turn_by_run reply
    find-missing r =
        keeps (find scope id r) s (err session_not_found) (ground (arith, lookup_missing))
          (ground arith)

    read-missing :
        (v : Option ℕ) (after : ℕ) (limit : Option ℕ) → Agrees (read scope id v after limit) s
    unfolding performed read_snapshot reply
    read-missing v after limit =
        let q = read scope id v after limit in
        elim (Bool-cases (is_no_page limit)) [
          | inl no_page ↦ keeps q s (err value_error) (ground arith) (ground arith)
          | inr paged ↦
              keeps q s (err session_not_found) (ground (arith, lookup_missing)) (ground arith)
        ]

  module _ (stored : StoredSession) (there : get (scope, id) s ≡ some stored)
      (sound : IsSession id stored) where
    lookup_there : lookup scope id s ≡ (ok stored, s)
    unfolding lookup
    lookup_there = ground arith

    claim-there : (r : String) (v now later : ℕ) → Agrees (claim scope id r v now later) s
    unfolding performed claim_run reply
    claim-there r v now later =
        let q = claim scope id r v now later in
        elim (Option-cases stored.claim) [
          | inr (c, e) ↦
              keeps q s (err session_claim_conflict) (ground (arith, lookup_there)) (ground arith)
          | inl free ↦ elim (Option-cases (existing_turn stored.turns r)) [
            | inr (t, e) ↦
                keeps q s (err session_claim_conflict) (ground (arith, lookup_there)) (ground arith)
            | inl fresh ↦ elim (Bool-cases (stored.version ==ℕ v)) [
              | inr stale ↦
                  keeps q s (err session_version_conflict) (ground (arith, lookup_there))
                    (ground (arith, sound.version))
              | inl current ↦
                  let c : SessionRunClaim = record {
                    session_id = stored.session_id;
                    run_id = r;
                    session_version = stored.version;
                    claimed_at = now;
                  } in
                  writes q s (ok (claimed r v))
                    (record stored { claim = some c; updated_at = later })
                    (ground (arith, lookup_there)) (ground (arith, sound.version))
            ]
          ]
        ]

    release-there : (r : String) (now : ℕ) → Agrees (release scope id r now) s
    unfolding performed release_claim reply
    release-there r now =
        let q = release scope id r now in
        elim (Option-cases stored.claim) [
          | inl free ↦ keeps q s (ok done) (ground (arith, lookup_there)) (ground arith)
          | inr (c, e) ↦ elim (Bool-cases (c.run_id == r)) [
            | inr other ↦
                keeps q s (err session_claim_conflict) (ground (arith, lookup_there)) (ground arith)
            | inl own ↦
                writes q s (ok done) (record stored { claim = none; updated_at = now })
                  (ground (arith, lookup_there)) (ground arith)
          ]
        ]

    commit-there : (turn : SessionTurn) (v now : ℕ) → Agrees (commit scope id turn v now) s
    unfolding performed commit_turn reply is_claimed_by
    commit-there turn v now =
        let q = commit scope id turn v now in
        elim (Bool-cases (turn.session_id == id)) [
          | inr other ↦ keeps q s (err value_error) (ground (arith, lookup_there)) (ground arith)
          | inl own ↦ elim (Option-cases (existing_turn stored.turns turn.run_id)) [
            | inr (t, e) ↦
                keeps q s (ok (settled committed (some t) (length stored.turns)))
                  (ground (arith, lookup_there, sound.version)) (ground arith)
            | inl fresh ↦
                elim (Bool-cases (is_claimed_by stored.claim turn.run_id && stored.version ==ℕ v)) [
                  | inr refused ↦
                      keeps q s (ok (settled conflict none (length stored.turns)))
                        (ground (arith, lookup_there, sound.version))
                        (ground (arith, sound.version))
                  | inl due ↦
                      writes q s (ok (settled committed (some turn) (length stored.turns + 1)))
                        (record stored {
                          turns = stored.turns ++ turn ∷ [];
                          claim = none;
                          version = stored.version + 1;
                          updated_at = now;
                        })
                        (ground (arith, lookup_there, sound.version))
                        (ground (arith, sound.version))
                ]
          ]
        ]

    find-there : (r : String) → Agrees (find scope id r) s
    unfolding performed find_turn_by_run reply
    find-there r =
        keeps (find scope id r) s (ok (found (existing_turn stored.turns r)))
          (ground (arith, lookup_there)) (ground arith)

    read-there :
        (v : Option ℕ) (after : ℕ) (limit : Option ℕ) → Agrees (read scope id v after limit) s
    unfolding performed read_snapshot reply to_snapshot
    read-there v after limit =
        let q = read scope id v after limit in
        elim (Bool-cases (is_no_page limit)) [
          | inl no_page ↦ keeps q s (err value_error) (ground arith) (ground arith)
          | inr paged ↦ elim (Bool-cases (differs v stored.version)) [
            | inl stale ↦
                keeps q s (err session_version_conflict) (ground (arith, lookup_there))
                  (ground (arith, sound.version))
            | inr current ↦
                keeps q s (ok (page_of stored.turns after limit))
                  (ground (arith, lookup_there, sound.version)) (ground (arith, sound.version))
          ]
        ]

performed-Agrees : (q : Request) (s : SessionStore) → IsValid s → Agrees q s
performed-Agrees (create scope id now) s valid = create-Agrees scope id s now
performed-Agrees (claim scope id r v now later) s valid = elim (Option-cases (get (scope, id) s)) [
  | inl missing ↦ claim-missing scope id s missing r v now later
  | inr (stored, there) ↦
      claim-there scope id s stored there (valid scope id stored there) r v now later
]
performed-Agrees (release scope id r now) s valid = elim (Option-cases (get (scope, id) s)) [
  | inl missing ↦ release-missing scope id s missing r now
  | inr (stored, there) ↦ release-there scope id s stored there (valid scope id stored there) r now
]
performed-Agrees (commit scope id turn v now) s valid = elim (Option-cases (get (scope, id) s)) [
  | inl missing ↦ commit-missing scope id s missing turn v now
  | inr (stored, there) ↦
      commit-there scope id s stored there (valid scope id stored there) turn v now
]
performed-Agrees (find scope id r) s valid = elim (Option-cases (get (scope, id) s)) [
  | inl missing ↦ find-missing scope id s missing r
  | inr (stored, there) ↦ find-there scope id s stored there (valid scope id stored there) r
]
performed-Agrees (read scope id v after limit) s valid = elim (Option-cases (get (scope, id) s)) [
  | inl missing ↦ read-missing scope id s missing v after limit
  | inr (stored, there) ↦
      read-there scope id s stored there (valid scope id stored there) v after limit
]

answered-state :
    {A : Type 0} (f : A → Answer) (call : Result Error A × SessionStore)
    → (answered f call).1 ≡ (forget call).1
answered-state f (ok a, s) = refl
answered-state f (err e, s) = refl

apply-IsValid : (call : SessionCall) (s : SessionStore) → IsValid s → IsValid (apply call s).1
unfolding apply_all
apply-IsValid call s valid = apply_all-IsValid (call ∷ []) s valid

read-state :
    (scope id : String) (v : Option ℕ) (after : ℕ) (limit : Option ℕ) (s : SessionStore)
    → (performed (read scope id v after limit) s).1 ≡ s
unfolding performed read_snapshot
read-state scope id v after limit s = elim (Bool-cases (is_no_page limit)) [
  | inl no_page ↦ ground arith
  | inr paged ↦ elim (lookup-cases scope id s) [
    | inr raises ↦ ground arith
    | inl (stored, there, returns) ↦ elim (Bool-cases (differs v stored.version)) [
      | inl stale ↦ ground arith
      | inr current ↦ ground arith
    ]
  ]
]

performed-IsValid : (q : Request) (s : SessionStore) → IsValid s → IsValid (performed q s).1
unfolding performed apply find_turn_by_run read_snapshot
performed-IsValid (create scope id now) s valid =
    rw (answered-state (λ _. done) (create_session scope id now s))
      (apply-IsValid (Effect.create scope id now) s valid)
performed-IsValid (claim scope id r v now later) s valid =
    rw
      (answered-state (λ c. claimed c.run_id c.session_version)
        (claim_run scope id r v now later s))
      (apply-IsValid (Effect.claim scope id r v now later) s valid)
performed-IsValid (release scope id r now) s valid =
    rw (answered-state (λ _. done) (release_claim scope id r now s))
      (apply-IsValid (Effect.release scope id r now) s valid)
performed-IsValid (commit scope id turn v now) s valid =
    rw (answered-state (λ x. settled x.status x.turn x.version) (commit_turn scope id turn v now s))
      (apply-IsValid (Effect.commit scope id turn v now) s valid)
performed-IsValid (find scope id r) s valid = elim (lookup-cases scope id s) [
  | inl (stored, there, returns) ↦ subst IsValid (ground arith) valid
  | inr raises ↦ subst IsValid (ground arith) valid
]
performed-IsValid (read scope id v after limit) s valid =
    subst IsValid (sym (read-state scope id v after limit s)) valid

-- The store holds the conversations.
abbrev pub Represents : SessionStore → Conversations → Type 0
Represents s c = (k : String × String) → view_some (get k s) ≡ c k

specified-Represents :
    (q : Request) (s : SessionStore) (c : Conversations)
    → IsValid s
    → Represents s c
    → ((performed q s).0 ≡ (specified q c).0) × Represents (performed q s).1 (specified q c).1
unfolding specified
specified-Represents q s c valid same =
    let agrees = performed-Agrees q s valid in
    (rw (← same (key_of q)) agrees.answer, λ k. rw (← same (key_of q), ← same k) (agrees.state k))

-- The store keeps its contract: from a store that meets its invariant, any requests by any
-- clients, reads included, get the answers that the contract gives for the conversations which
-- the store holds. In those answers the version of a session is the number of its turns.
pub performed_all-specified_all :
    (requests : List Request) (s : SessionStore) (c : Conversations)
    → IsValid s
    → Represents s c
    → performed_all requests s ≡ specified_all requests c
unfolding performed_all specified_all
performed_all-specified_all [] s c valid same = refl
performed_all-specified_all (q ∷ requests) s c valid same =
    let (answer, same') = specified-Represents q s c valid same in
    cc (
      answer,
      performed_all-specified_all requests (performed q s).1 (specified q c).1
          (performed-IsValid q s valid) same',
    )
