-- ===== src/Session/Pages.antt =====
-- Reading a history page by page.
use m_agent.Base.{
  ℕ, zero, suc, ◌+◌, ◌-◌, ◌≤◌, ◌<◌, ◌≡◌, refl, sym, ◌∙◌, none, some, List, [], ◌∷◌, ◌++◌, arith,
  length, min, drop, take, ltb, Bool-cases, inl, inr,
}
use m_agent.Session.Model.{SessionTurn}
use m_agent.Session.Store.{StoredSession, window, to_snapshot}

-- What a reader gathers who follows `next_cursor` from page to page, at most `fuel` pages.
unfoldable pub read_pages : ℕ → StoredSession → ℕ → ℕ → List SessionTurn
unfolding to_snapshot window
read_pages zero stored limit after = []
read_pages (suc fuel) stored limit after =
    let page = to_snapshot stored after (some limit) in
    page.turns
    ++ (elim page.next_cursor [ none ↦ [] | some next ↦ read_pages fuel stored limit next ])

module _ {A : Type 0} where
  take-drop : (n : ℕ) (xs : List A) → take n xs ++ drop n xs ≡ xs
  take-drop zero xs = refl
  take-drop (suc n) [] = refl
  take-drop (suc n) (x ∷ xs) = ground (arith, take-drop n xs)

  drop-nil : (m : ℕ) → drop {A = A} m [] ≡ []
  drop-nil zero = refl
  drop-nil (suc m) = refl

  drop-drop : (n m : ℕ) (xs : List A) → drop (n + m) xs ≡ drop m (drop n xs)
  drop-drop zero m xs = ground arith
  drop-drop (suc n) m [] = drop-nil (suc n + m) ∙ sym (drop-nil m)
  drop-drop (suc n) m (x ∷ xs) =
      let e : suc n + m ≡ suc (n + m) = omega arith in rw e (drop-drop n m xs)

  length-drop : (n : ℕ) (xs : List A) → length (drop n xs) ≡ length xs - n
  length-drop zero xs = omega arith
  length-drop (suc n) [] = omega arith
  length-drop (suc n) (x ∷ xs) = omega (arith, length-drop n xs)

  length-take : (n : ℕ) (xs : List A) → length (take n xs) ≡ min n (length xs)
  length-take zero xs = ground arith
  length-take (suc n) [] = ground arith
  length-take (suc n) (x ∷ xs) = ground (arith, length-take n xs)

  empty_of_length : (xs : List A) → length xs ≡ 0 → xs ≡ []
  empty_of_length [] h = refl
  empty_of_length (x ∷ xs) h = absurd (omega (arith, h))

-- With pages of at least one turn, a reader who follows the cursor from any position gathers every
-- turn from there on, each once and in order; as many pages as there are turns are enough.
pub read_pages_complete :
    (fuel : ℕ) (stored : StoredSession) (limit after : ℕ)
    → 0 < limit
    → length stored.turns ≤ after + fuel
    → read_pages fuel stored limit after ≡ drop after stored.turns
unfolding read_pages to_snapshot window
read_pages_complete zero stored limit after page enough =
    sym (empty_of_length _ (omega (arith, length-drop after stored.turns, enough)))
read_pages_complete (suc fuel) stored limit after page enough =
    let rest = drop after stored.turns in
    let n = after + length (take limit rest) in
    let size = length-take limit rest in
    let left = length-drop after stored.turns in
    elim (Bool-cases (ltb n (length stored.turns))) [
      | inl more ↦
          let full : n ≡ after + limit = ground (arith, size, left) in
          let later = read_pages_complete fuel stored limit n page (ground (arith, full)) in
          ground (arith, later, full, drop-drop after limit stored.turns, take-drop limit rest)
      | inr done ↦
          let over : drop limit rest ≡ [] =
            empty_of_length _ (ground (arith, size, left, length-drop limit rest)) in
          ground (arith, over, take-drop limit rest)
    ]
