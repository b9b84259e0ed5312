-- ===== src/Hub/Paginate/Complete.antt =====
-- Reading every page of a list gives the list, and ends.
use mathlib.Core.List.{append-nil}
use sovran_bitcoin.Base.{
  ℕ, zero, suc, ◌+◌, ◌*◌, ◌≤◌, ◌<◌, String, ◌≡◌, refl, ◌⊎◌, inl, inr, true, false, Option, none,
  some, List, [], ◌++◌, length, take, drop, take-drop, take_all, length-take-le, length-drop-le,
  leb, ltb, Bool-cases, arith, dec_lt, if◌then◌else◌,
}
use sovran_bitcoin.Base.Monad.{Action, pure, ok, bind_ok}
use sovran_bitcoin.Base.Text.{nonempty}
use sovran_bitcoin.Hub.Client.{Call, Answer, Hub, Managed, Setting, request, ensure_ready}
use sovran_bitcoin.Hub.Retry.{ensure_ready-held}
use sovran_bitcoin.Hub.Paginate.{page_size, enough, collect, paginate}

-- The total that a server gives: none, or the length of the list.
abbrev pub IsTotal : {A : Type 0} → Option ℕ → List A → Type 0
IsTotal total xs = (total ≡ none) ⊎ (total ≡ some (length xs))

module _ {A : Type 0} (total : Option ℕ) (xs : List A) (known : IsTotal total xs) (offset : ℕ) where
  abbrev found_at : List A
  found_at = take (offset + page_size) xs

  abbrev items_at : List A
  items_at = take page_size (drop offset xs)

  -- Past the end of the list the loop is left.
  last-enough :
      offset ≤ length xs → length xs < offset + page_size → enough total found_at items_at ≡ true
  last-enough in_list short =
      let rest : length (drop offset xs) < page_size =
        omega (arith, length-drop-le {A = A} offset xs) in
      let items : length (take page_size (drop offset xs)) < page_size =
        rw (take_all {A = A} page_size (drop offset xs) (omega arith)) rest in
      let whole : take (offset + page_size) xs ≡ xs =
        take_all {A = A} (offset + page_size) xs (omega arith) in
      elim known [
        | inl absent ↦ rw absent (ltb_of _ _ items)
        | inr given ↦ rw (given, whole) (leb_self (length xs))
      ]
    where
      ltb_of : (a b : ℕ) → a < b → ltb a b ≡ true
      ltb_of a b h = ground arith

      leb_self : (a : ℕ) → leb a a ≡ true
      leb_self a = ground arith

  -- The loop is left only with the whole list.
  enough-whole :
      offset + page_size ≤ length xs → enough total found_at items_at ≡ true → found_at ≡ xs
  enough-whole more left = elim known [
    | inl absent ↦ absurd (too_long (rw absent at left))
    | inr given ↦ take_all {A = A} (offset + page_size) xs (
        read_off (length xs)
          (rw (given, length-take-le {A = A} (offset + page_size) xs more) at left))
  ]
    where
      too_long : ltb (length (take page_size (drop offset xs))) page_size ≡ true → ⊥
      too_long h =
          let rest : page_size ≤ length (drop offset xs) =
            omega (arith, length-drop-le {A = A} offset xs) in
          not_below (length (take page_size (drop offset xs)))
            (length-take-le {A = A} page_size (drop offset xs) rest) h
        where
          not_below : (n : ℕ) → n ≡ page_size → ltb n page_size ≡ true → ⊥
          not_below n e h = ground arith

      read_off : (n : ℕ) → leb n (offset + page_size) ≡ true → n ≤ offset + page_size
      read_off n h = ground arith

module _ {S A : Type 0} (hub : Hub S) (setting : Setting) (read : Answer → List A × Option ℕ)
    (call : ℕ → ℕ → Call) (t : String) (total : Option ℕ) (xs : List A) (P : S → Type 0) where
  -- The hub's answer to one page, and the state that it leaves.
  abbrev pub Served : ℕ → S → Type 0
  Served offset h =
      (answer : Answer) × (h' : S) × (hub.request (call page_size offset) (some t) h
        ≡ (ok answer, h'))
      × (read answer ≡ (take page_size (drop offset xs), total))
      × P h'

  abbrev Collected : ℕ → ℕ → Managed S → Type 0
  Collected fuel offset m =
      (h : S) × (collect hub setting read call t fuel offset (take offset xs) m
        ≡ (ok (some xs), record m { hub = h }))
      × P h

  -- One round of the loop.
  abbrev left_or_on : ℕ → ℕ → Action (Managed S) (Option (List A))
  left_or_on f offset =
      let found = take (offset + page_size) xs in
      if enough total found (take page_size (drop offset xs))
      then pure (some found)
      else collect hub setting read call t f (offset + page_size) found

  abbrev RoundEnds : ℕ → ℕ → Managed S → S → Type 0
  RoundEnds f offset m h' =
      (h : S) × (left_or_on f offset (record m { hub = h' }) ≡ (ok (some xs), record m { hub = h }))
      × P h

  round :
      (f offset : ℕ) (m : Managed S) (answer : Answer) (h' : S)
      → hub.request (call page_size offset) (some t) m.hub ≡ (ok answer, h')
      → read answer ≡ (take page_size (drop offset xs), total)
      → collect hub setting read call t (suc f) offset (take offset xs) m
        ≡ left_or_on f offset (record m { hub = h' })
  unfolding collect
  round f offset m answer h' asked page = rw (
    bind_ok (request hub setting (call page_size offset) (some t)) m (record m { hub = h' })
        (λ answer.
          let found = take offset xs ++ (read answer).0 in
          if enough (read answer).1 found (read answer).0
          then pure (some found)
          else collect hub setting read call t f (offset + page_size) found)
        answer (rw asked),
    page,
    take-drop {A = A} offset page_size (offset + page_size) xs refl,
  )

  module _ (known : IsTotal total xs) (serves : (offset : ℕ) (h : S) → P h → Served offset h) where
    ends :
        (f offset : ℕ) (m : Managed S) (h' : S)
        → P h'
        → enough total (take (offset + page_size) xs) (take page_size (drop offset xs)) ≡ true
        → take (offset + page_size) xs ≡ xs
        → RoundEnds f offset m h'
    ends f offset m h' p' left whole = (h', rw (left, whole) refl, p')

    behind :
        (f offset : ℕ) (m : Managed S) (h' : S)
        → P h'
        → offset ≤ length xs
        → (offset + page_size ≤ length xs
            → Collected f (offset + page_size) (record m { hub = h' }))
        → RoundEnds f offset m h'
    behind f offset m h' p' in_list later = elim (dec_lt (length xs) (offset + page_size)) [
      | yes late ↦
          ends f offset m h' p' (last-enough total xs known offset in_list late)
            (take_all {A = A} (offset + page_size) xs (omega arith))
      | no early ↦
          elim (Bool-cases
            (enough total (take (offset + page_size) xs) (take page_size (drop offset xs)))) [
              | inl left ↦
                  ends f offset m h' p' left (enough-whole total xs known offset (omega arith) left)
              | inr more ↦ rw more (later (omega arith))
            ]
    ]

    collect-whole :
        (fuel offset : ℕ) (m : Managed S)
        → P m.hub
        → offset ≤ length xs
        → length xs < offset + fuel * page_size
        → Collected fuel offset m
    collect-whole zero offset m p in_list fuel = absurd (omega arith)
    collect-whole (suc f) offset m p in_list fuel =
        let (answer, h', asked, page, p') = serves offset m.hub p in
        rw (round f offset m answer h' asked page) (
          behind f offset m h' p' in_list (λ more.
            collect-whole f (offset + page_size) (record m { hub = h' }) p' more (omega arith)))

    -- Where the manager holds a token, the hub answers each request for a page with that slice of one
    -- list, with the list's length as the total or with no total, and stays able to: `_paginate` ends
    -- within as many rounds as there are hundreds in the list and one more, and gives the whole list,
    -- each item once and in order.
    pub paginate-whole :
        (fuel : ℕ) (m : Managed S)
        → P m.hub
        → m.token ≡ some t
        → nonempty t ≡ true
        → length xs < fuel * page_size
        → (h : S) × (paginate hub setting read call fuel m ≡ (ok (some xs), record m { hub = h }))
          × P h
    unfolding paginate
    paginate-whole fuel m p held real enough_fuel =
        rw
          (bind_ok (ensure_ready hub setting) m m (λ t'. collect hub setting read call t' fuel 0 [])
            t (ensure_ready-held hub setting m t held real))
          (collect-whole fuel 0 m p (omega arith) (omega arith))

-- A hub that promises more items than it serves.
module _ {S A : Type 0} (hub : Hub S) (setting : Setting) (read : Answer → List A × Option ℕ)
    (call : ℕ → ℕ → Call) (t : String) (total : ℕ) where
  -- Where every page is empty and every total is more than was collected, no number of rounds
  -- suffices: the loop never leaves.
  pub collect-stuck :
      (fuel offset : ℕ) (found : List A) (m : Managed S)
      → ((offset : ℕ) (h : S)
          → (answer : Answer) × (hub.request (call page_size offset) (some t) h ≡ (ok answer, h))
            × (read answer ≡ ([], some total)))
      → length found < total
      → collect hub setting read call t fuel offset found m ≡ (ok none, m)
  unfolding collect
  collect-stuck zero offset found m serves short = refl
  collect-stuck (suc f) offset found m serves short =
      let (answer, asked, page) = serves offset m.hub in
      rw
        (
          bind_ok (request hub setting (call page_size offset) (some t)) m m
              (λ answer.
                let all = found ++ (read answer).0 in
                if enough (read answer).1 all (read answer).0
                then pure (some all)
                else collect hub setting read call t f (offset + page_size) all)
              answer (rw asked),
          page,
          append-nil,
          above total (length found) short,
        )
        (collect-stuck f (offset + page_size) found m serves short)
    where
      above : (n k : ℕ) → k < n → leb n k ≡ false
      above n k h = ground arith
