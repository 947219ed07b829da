-- ===== src/Console/Layout/Wrap.antt =====
-- The lines that `hardWrap` makes, against its text.
use getsloth.Base.{
  ℕ, zero, suc, ◌≤◌, ◌<◌, List, [], ◌∷◌, ◌++◌, ◌≡◌, refl, ap, ◌∙◌, arith, length, take, drop, All,
  length-take, length-drop, take-append-drop, ltb, Bool-cases, inl, inr, lt→ltb,
}
use getsloth.Console.Layout.{wrap_turns, hard_wrap}

abbrev joined : List (List ℕ) → List ℕ
joined [] = []
joined (line ∷ lines) = line ++ joined lines

abbrev Fits : ℕ → List ℕ → List (List ℕ) → Type 0
Fits width text lines = (joined lines ≡ text) × All (λ line. length line ≤ width) lines

append-nil : (xs : List ℕ) → xs ++ [] ≡ xs
append-nil [] = refl
append-nil (x ∷ xs) = ap (λ ys. x ∷ ys) (append-nil xs)

wrap_turns-Fits :
    (fuel width : ℕ) (text : List ℕ)
    → 0 < width
    → length text ≤ fuel
    → Fits width text (wrap_turns fuel width text)
unfolding wrap_turns
wrap_turns-Fits zero width text some_room enough =
    (append-nil text, (omega (arith, enough, some_room), tt))
wrap_turns-Fits (suc fuel) width text some_room enough =
    elim (Bool-cases (ltb width (length text))) [
      | inl long ↦
          let lt : width < length text = ground (arith, long) in
          let later =
            wrap_turns-Fits fuel width (drop width text) some_room
              (omega (arith, length-drop width text, some_room, enough)) in
          rw (long, lt→ltb 0 width some_room)
            (
              ap (λ rest. take width text ++ rest) later.0 ∙ take-append-drop width text,
              (omega (arith, length-take width text), later.1),
            )
      | inr short ↦ rw short (append-nil text, (ground (arith, short), tt))
    ]

-- A text that is wrapped to some columns is the same text when its lines are joined, and no line is
-- longer than the columns; the loop ends within as many turns as the text has bytes.
hard_wrap-Fits :
    (text : List ℕ) (width : ℕ)
    → 0 < width
    → (joined (hard_wrap text width) ≡ text)
      × All (λ line. length line ≤ width) (hard_wrap text width)
unfolding hard_wrap
hard_wrap-Fits text width some_room =
    wrap_turns-Fits (length text) width text some_room (omega arith)
