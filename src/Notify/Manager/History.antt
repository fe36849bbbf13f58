-- ===== src/Notify/Manager/History.antt =====
-- The history of the notification manager: the newest entries, up to its bound.
use klever_node_hub.Prelude.{
  ℕ, zero, suc, ◌+◌, ◌-◌, ◌≤◌, ◌≡◌, refl, sym, ap, ◌∙◌, List, [], ◌∷◌, ◌++◌, append_assoc, length,
  length-append, length-drop, drop, map, arith,
}
use klever_node_hub.Notify.Manager.{HistoryEntry, Manager, add_history}

module _ {ℓ} {A : Type ℓ} where
  -- The last elements of a list, at most so many.
  abbrev pub last_of : ℕ → List A → List A
  last_of n xs = drop (length xs - n) xs

  pub drop-append : (k : ℕ) (xs ys : List A) → k ≤ length xs → drop k (xs ++ ys) ≡ drop k xs ++ ys
  drop-append zero xs ys h = refl
  drop-append (suc k) [] ys h = absurd (omega (arith, h))
  drop-append (suc k) (x ∷ xs) ys h = drop-append k xs ys (omega (arith, h))

  drop-nil : (j : ℕ) → drop {A = A} j [] ≡ []
  drop-nil zero = refl
  drop-nil (suc j) = refl

  pub drop-drop : (j k : ℕ) (xs : List A) → drop j (drop k xs) ≡ drop (k + j) xs
  drop-drop j zero xs = ap (λ n. drop n xs) (omega arith)
  drop-drop j (suc k) [] = drop-nil j ∙ sym (drop-nil (suc k + j))
  drop-drop j (suc k) (x ∷ xs) =
      let n : suc (k + j) ≡ suc k + j = omega arith in
      drop-drop j k xs ∙ ap (λ i. drop i (x ∷ xs)) n

  pub last_of-append :
      (n : ℕ) (xs ys : List A) → last_of n (last_of n xs ++ ys) ≡ last_of n (xs ++ ys)
  last_of-append n xs ys =
      let k = length xs - n in
      ap (λ zs. last_of n zs) (sym (drop-append k xs ys (omega arith)))
      ∙ drop-drop (length (drop k (xs ++ ys)) - n) k (xs ++ ys)
      ∙ ap (λ j. drop j (xs ++ ys)) (omega (arith, length-drop k (xs ++ ys), length-append xs ys))

  pub length-last_of : (n : ℕ) (xs : List A) → length (last_of n xs) ≤ n
  length-last_of n xs = omega (arith, length-drop (length xs - n) xs)

  -- A list that is short enough is kept whole.
  pub last_of-whole : (n : ℕ) (xs : List A) → length xs ≤ n → last_of n xs ≡ xs
  last_of-whole n xs h =
      let none_over : length xs - n ≡ 0 = omega (arith, h) in ap (λ k. drop k xs) none_over

module _ {ℓ} {A : Type ℓ} where
  pub last_of-last_of : (k n : ℕ) (xs : List A) → k ≤ n → last_of k (last_of n xs) ≡ last_of k xs
  last_of-last_of k n xs h =
      drop-drop (length (last_of n xs) - k) (length xs - n) xs
      ∙ ap (λ j. drop j xs) (omega (arith, h, length-drop (length xs - n) xs))

  drop-length : (xs ys : List A) → drop (length xs) (xs ++ ys) ≡ ys
  drop-length [] ys = refl
  drop-length (x ∷ xs) ys = drop-length xs ys

  pub last_of-two : (xs : List A) (a b : A) → last_of 2 (xs ++ a ∷ b ∷ []) ≡ a ∷ b ∷ []
  last_of-two xs a b =
      let n : length (xs ++ a ∷ b ∷ []) - 2 ≡ length xs =
        omega (arith, length-append xs (a ∷ b ∷ [])) in
      ap (λ k. drop k (xs ++ a ∷ b ∷ [])) n ∙ drop-length xs (a ∷ b ∷ [])

module _ {ℓ κ} {A : Type ℓ} {B : Type κ} where
  pub length-map : (f : A → B) (xs : List A) → length (map f xs) ≡ length xs
  length-map f [] = refl
  length-map f (x ∷ xs) = omega (arith, length-map f xs)

  pub map-append : (f : A → B) (xs ys : List A) → map f (xs ++ ys) ≡ map f xs ++ map f ys
  map-append f [] ys = refl
  map-append f (x ∷ xs) ys = ap (λ zs. f x ∷ zs) (map-append f xs ys)

  pub map-drop : (f : A → B) (k : ℕ) (xs : List A) → map f (drop k xs) ≡ drop k (map f xs)
  map-drop f zero xs = refl
  map-drop f (suc k) [] = refl
  map-drop f (suc k) (x ∷ xs) = map-drop f k xs

  pub map-last_of : (f : A → B) (n : ℕ) (xs : List A) → map f (last_of n xs) ≡ last_of n (map f xs)
  map-last_of f n xs =
      map-drop f (length xs - n) xs ∙ ap (λ k. drop (k - n) (map f xs)) (sym (length-map f xs))

-- An entry without its ID.
abbrev pub unnumbered : HistoryEntry → HistoryEntry
unnumbered e = record e { id = 0 }

numbered : HistoryEntry → Manager → HistoryEntry
numbered e m = record e { id = length m.history + 1 }

add_history_lem :
    (e : HistoryEntry) (m : Manager)
    → (add_history e m).history ≡ last_of m.max_hist (m.history ++ numbered e m ∷ [])
unfolding add_history numbered
add_history_lem e m =
    let hist = m.history ++ numbered e m ∷ [] in ground (arith, last_of-whole m.max_hist hist)

-- What the manager keeps, apart from the IDs: the newest entries.
pub add_history-newest :
    (e : HistoryEntry) (m : Manager)
    → map unnumbered (add_history e m).history
      ≡ last_of m.max_hist (map unnumbered m.history ++ unnumbered e ∷ [])
unfolding numbered
add_history-newest e m =
    ap (map unnumbered) (add_history_lem e m)
    ∙ map-last_of unnumbered m.max_hist (m.history ++ numbered e m ∷ [])
    ∙ ap (last_of m.max_hist) (map-append unnumbered m.history (numbered e m ∷ []))

-- Once the history is full, every further entry gets the same ID.
pub add_history_repeats :
    (e f : HistoryEntry) (m : Manager)
    → 2 ≤ m.max_hist
    → length m.history ≡ m.max_hist
    → map (λ h. h.id) (last_of 2 (add_history f (add_history e m)).history)
      ≡ (m.max_hist + 1) ∷ (m.max_hist + 1) ∷ []
unfolding numbered add_history
add_history_repeats e f m h full =
    let a = numbered e m in
    let m' = add_history e m in
    let b = numbered f m' in
    let length_a : length m'.history ≡ m.max_hist = omega (
      arith,
      full,
      ap length (add_history_lem e m),
      length-append m.history (a ∷ []),
      length-drop (length (m.history ++ a ∷ []) - m.max_hist) (m.history ++ a ∷ []),
    ) in
    let hist = m.history ++ a ∷ [] in
    ap (λ l. map (λ x. x.id) (last_of 2 l))
      (add_history_lem f m'
        ∙ ap (λ l. last_of m.max_hist (l ++ b ∷ [])) (add_history_lem e m)
        ∙ last_of-append m.max_hist hist (b ∷ []))
    ∙ ap (map (λ x. x.id)) (
        last_of-last_of 2 m.max_hist (hist ++ b ∷ []) h
        ∙ ap (last_of 2) (append_assoc m.history (a ∷ []) (b ∷ []))
        ∙ last_of-two m.history a b)
    ∙ ground (arith, full, length_a)
