-- ===== src/Text/Lines.antt =====
-- Cutting a text into lines of a fixed width, and dropping newlines.
use twitter_clone.Prelude.{
  ℕ, suc, ◌≤◌, ◌<◌, ◌≡◌, refl, ◌∙◌, ap, true, false, List, [], ◌∷◌, ◌++◌, some, arith, ltb, ltb→lt,
  inl, inr, length, take, drop, init, All, All-append, Bytes, Lacks, Bool-cases, take-append-drop,
  length-take-le, append_assoc, append-nil, length-drop, take_all,
}
use twitter_clone.Text.{
  split_by_length, split_by_length_loop, remove_new_line, without_newlines, ends_in_newline,
}

-- All lines, one after the other.
abbrev pub concat : List Bytes → Bytes
concat [] = []
concat (s ∷ ss) = s ++ concat ss

concat-append : (xs ys : List Bytes) → concat (xs ++ ys) ≡ concat xs ++ concat ys
concat-append [] ys = refl
concat-append (x ∷ xs) ys = simp (concat-append xs ys, append_assoc)

abbrev pub Fits : ℕ → Bytes → Type 0
Fits n s = length s ≤ n

-- With the lines so far spelling all but the unread rest, the loop ends with lines that fit and
-- spell the whole text.
loop_lem :
    (f n : ℕ) (buff : Bytes) (lines : List Bytes) (done : Bytes)
    → 0 < n
    → length buff < f
    → concat lines ≡ done ++ take n buff
    → All (Fits n) lines
    → (ps : List Bytes) × (split_by_length_loop f n buff lines ≡ some ps)
      × (concat ps ≡ done ++ buff)
      × All (Fits n) ps
unfolding split_by_length_loop
loop_lem ℕ.zero n buff lines done pos h e k = absurd (omega arith)
loop_lem (suc f) n buff lines done pos h e k = elim (Bool-cases (ltb n (length buff))) [
  | inl more ↦
      let rest = drop n buff in
      let (ps, run, spells, fit) =
        loop_lem f n rest (lines ++ take n rest ∷ []) (done ++ take n buff) pos
          (omega (arith, length-drop n buff, ltb→lt n (length buff) more))
          (concat-append lines (take n rest ∷ []) ∙ simp append-nil (rw e))
          (All-append (Fits n) lines (take n rest ∷ []) k (length-take-le n rest, tt)) in
      (
        ps,
        rw (more, split_by_length_loop) run,
        spells
            ∙ append_assoc done (take n buff) rest
            ∙ ap (λ t. done ++ t) (take-append-drop n buff),
        fit,
      )
  | inr last ↦ (lines, ground arith, e ∙ ap (λ t. done ++ t) (take_all n buff (ground arith)), k)
]

-- For a positive width the loop ends, the lines spell the text, and no line is longer than the
-- width.
pub split_by_length_lem :
    (n : ℕ) (s : Bytes)
    → 0 < n
    → (ps : List Bytes) × (split_by_length n s ≡ some ps) × (concat ps ≡ s) × All (Fits n) ps
unfolding split_by_length
split_by_length_lem n s pos =
    loop_lem (suc (length s)) n s (take n s ∷ []) [] pos (omega arith) (append-nil (take n s))
      (length-take-le n s, tt)

without_newlines-Lacks : (t : Bytes) → Lacks b'\n' (without_newlines t)
unfolding without_newlines
without_newlines-Lacks [] = tt
without_newlines-Lacks (c ∷ t) = ground (arith, without_newlines-Lacks t)

ends_in_newline-concat : (t : Bytes) → ends_in_newline (t ++ b'\n' ∷ []) ≡ true
unfolding ends_in_newline
ends_in_newline-concat [] = refl
ends_in_newline-concat (c ∷ []) = refl
ends_in_newline-concat (c ∷ d ∷ t) = ends_in_newline-concat (d ∷ t)

init-concat : (t : Bytes) → init (t ++ b'\n' ∷ []) ≡ t
init-concat [] = refl
init-concat (c ∷ []) = refl
init-concat (c ∷ d ∷ t) = ap (λ r. c ∷ r) (init-concat (d ∷ t))

-- Removing all newlines leaves none; removing one newline cuts exactly a final one off, and leaves
-- a text that does not end in one unchanged.
remove_new_line_lem :
    (s : Bytes)
    → Lacks b'\n' (remove_new_line s true)
      × (remove_new_line (s ++ b'\n' ∷ []) false ≡ s)
      × (ends_in_newline s ≡ false → remove_new_line s false ≡ s)
unfolding remove_new_line
remove_new_line_lem s = (
  without_newlines-Lacks s,
  ground (arith, ends_in_newline-concat s, init-concat s),
  λ h. ground arith,
)
