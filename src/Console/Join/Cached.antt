-- ===== src/Console/Join/Cached.antt =====
-- The memory of the drawn code.
use getsloth.Base.{
  String, Option, none, some, ◌≡◌, ◌≢◌, ap, ◌∙◌, sym, refl, ◌==◌, eq_iff, arith, not, ◌&&◌,
  Bool-cases, inl, inr,
}
use getsloth.Console.Join.{Memo, cached_qr_code}

-- What is remembered, if anything is, is what the code is drawn as.
abbrev IsFresh : (String → Option String) → Memo → Type 0
IsFresh render memo = memo.rendered ≢ "" → render memo.data_text ≡ some memo.rendered

-- The console shows the same code for a link as if it drew it anew each time, an error included, and
-- what it remembers stays what the link is drawn as.
cached_qr_code-render :
    (render : String → Option String) (url : String) (memo : Memo)
    → IsFresh render memo
    → let (memo', drawn) = cached_qr_code render url memo in
      (drawn ≡ render url) × IsFresh render memo'
unfolding cached_qr_code
cached_qr_code-render render url memo fresh =
    elim (Bool-cases (memo.data_text == url && not (memo.rendered == ""))) [
      | inl hit ↦
          let same : memo.data_text ≡ url = ground (arith, hit, eq_iff memo.data_text url) in
          let shown : memo.rendered ≢ "" = ground (arith, hit, eq_iff memo.rendered "") in
          rw hit (sym (fresh shown) ∙ ap render same, fresh)
      | inr miss ↦ rw miss (drawn (render url) refl)
    ]
  where
    drawn :
        (o : Option String)
        → render url ≡ o
        → let (memo', shown) : Memo × Option String = elim o [
          | none ↦ (memo, none)
          | some text ↦ (record { data_text = url; rendered = text }, some text)
        ] in
          (shown ≡ o) × IsFresh render memo'
    drawn none e = (refl, fresh)
    drawn (some text) e = (refl, (λ _. e))
