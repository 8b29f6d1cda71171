-- ===== src/Text/Split.antt =====
-- Splitting and joining are inverse.
use twitter_clone.Prelude.{
  ℕ, suc, ◌+◌, ◌<◌, ◌≡◌, ◌≢◌, refl, ap, ◌∙◌, sym, false, List, [], ◌∷◌, ◌++◌, none, some, arith,
  length, take, drop, All, Bytes, Lacks, Option-cases, take_prefix, append_assoc, append-nil,
  length-drop, length-append, inl, inr,
}
use mathlib.Core.List.{concat-ne-nil}
use twitter_clone.Text.{
  starts_with, find, split, split_loop, join_string_vector, join_loop, join_string_list,
  join_list_loop,
}
use twitter_clone.Text.Find.{find_sound, find-Clear, Clear, drop_two}

-- Each part behind a delimiter.
unfoldable pub glue : Bytes → List Bytes → Bytes
glue d [] = []
glue d (p ∷ ps) = d ++ (p ++ glue d ps)

glue-append : (d : Bytes) (ps qs : List Bytes) → glue d (ps ++ qs) ≡ glue d ps ++ glue d qs
unfolding glue
glue-append d [] qs = refl
glue-append d (p ∷ ps) qs = simp (glue-append d ps qs, append_assoc)

pub join_loop-glue : (d : Bytes) (ps : List Bytes) (s : Bytes) → join_loop d ps s ≡ s ++ glue d ps
unfolding join_loop glue
join_loop-glue d [] s = sym (append-nil s)
join_loop-glue d (p ∷ ps) s = simp (join_loop-glue d ps, append_assoc)

pub join_list_loop-glue :
    (d : Bytes) (ps : List Bytes) (s : Bytes) → join_list_loop d ps false s ≡ s ++ glue d ps
unfolding join_list_loop glue
join_list_loop-glue d [] s = sym (append-nil s)
join_list_loop-glue d (p ∷ ps) s = simp (join_list_loop-glue d ps, append_assoc)

-- The two joins, of a vector and of a list, agree.
pub join_string_list-eq :
    (ps : List Bytes) (d : Bytes) → join_string_list ps d ≡ join_string_vector ps d
unfolding join_string_list join_string_vector
join_string_list-eq [] d = refl
join_string_list-eq (p ∷ ps) d = join_list_loop-glue d ps p ∙ sym (join_loop-glue d ps p)

-- What the loop has cut off, glued to the rest, is the whole text.
split_loop-glue :
    (f : ℕ) (d : Bytes) (parts : List Bytes) (s : Bytes) {ps : List Bytes}
    → split_loop f d parts s ≡ some ps
    → glue d ps ≡ glue d parts ++ (d ++ s)
unfolding split_loop glue
split_loop-glue ℕ.zero d parts s h = cc
split_loop-glue (suc f) d parts s {ps} h = elim (Option-cases (find d s)) [
  | inl e ↦
      let whole : parts ++ s ∷ [] ≡ ps = ground arith in
      ap (glue d) (sym whole) ∙ glue-append d parts (s ∷ []) ∙ simp append-nil
  | inr (i, e) ↦
      let cut = parts ++ take i s ∷ [] in
      let rest = drop (i + length d) s in
      split_loop-glue f d cut rest (ground arith)
      ∙ ap (λ t. t ++ (d ++ rest)) (glue-append d parts (take i s ∷ []))
      ∙ simp (append-nil, append_assoc)
          (ap (λ t. glue d parts ++ (d ++ t)) (sym (find_sound d s i e)))
]

glue-join : (d : Bytes) (ps : List Bytes) → ps ≢ [] → glue d ps ≡ d ++ join_string_vector ps d
unfolding glue join_string_vector
glue-join d [] h = absurd (h refl)
glue-join d (p ∷ ps) h = ap (λ t. d ++ t) (sym (join_loop-glue d ps p))

append-cancel {ℓ} : {A : Type ℓ} (xs : List A) {ys zs : List A} → xs ++ ys ≡ xs ++ zs → ys ≡ zs
append-cancel [] h = h
append-cancel (x ∷ xs) h = append-cancel xs (cc)

split_loop-ne-nil :
    (f : ℕ) (d : Bytes) (parts : List Bytes) (s : Bytes) {ps : List Bytes}
    → split_loop f d parts s ≡ some ps
    → ps ≢ []
unfolding split_loop
split_loop-ne-nil ℕ.zero d parts s h = cc
split_loop-ne-nil (suc f) d parts s {ps} h = elim (Option-cases (find d s)) [
  | inl e ↦ ground (arith, concat-ne-nil s parts)
  | inr (i, e) ↦
      split_loop-ne-nil f d (parts ++ take i s ∷ []) (drop (i + length d) s) (ground arith)
]

-- Whenever a split by any delimiter ends, joining its parts with that delimiter gives the text.
join-split : (s d : Bytes) (ps : List Bytes) → split s d ≡ some ps → join_string_vector ps d ≡ s
unfolding split
join-split s d ps h = append-cancel d (
    sym (glue-join d ps (split_loop-ne-nil (suc (length s)) d [] s h))
    ∙ unfold glue in split_loop-glue (suc (length s)) d [] s h)

drop_shorter :
    (c : ℕ) (d : Bytes) (j : ℕ) (t : Bytes)
    → find (c ∷ d) t ≡ some j
    → length (drop (j + suc (length d)) t) < length t
drop_shorter c d j [] e = unfold find starts_with in cc
drop_shorter c d j (x ∷ t) e = omega (arith, length-drop (j + suc (length d)) (x ∷ t))

split_loop_total :
    (f c : ℕ) (d : Bytes) (parts : List Bytes) (s : Bytes)
    → length s < f
    → (ps : List Bytes) × (split_loop f (c ∷ d) parts s ≡ some ps)
unfolding split_loop
split_loop_total ℕ.zero c d parts s h = absurd (omega arith)
split_loop_total (suc f) c d parts s h = elim (Option-cases (find (c ∷ d) s)) [
  | inl e ↦ (parts ++ s ∷ [], ground arith)
  | inr (i, e) ↦
      rw (e, split_loop)
        (split_loop_total f c d (parts ++ take i s ∷ []) (drop (i + suc (length d)) s)
          (omega (arith, drop_shorter c d i s e)))
]

split_total : (s : Bytes) (c : ℕ) (d : Bytes) → (ps : List Bytes) × (split s (c ∷ d) ≡ some ps)
unfolding split
split_total s c d = split_loop_total (suc (length s)) c d [] s (omega arith)

pub Lacks-Clear : (c : ℕ) (h rest : Bytes) → Lacks c h → Clear (c ∷ []) h rest
Lacks-Clear c [] rest k = tt
Lacks-Clear c (x ∷ h) rest (kx, kh) = (unfold starts_with in ground arith, Lacks-Clear c h rest kh)

find-Lacks : (c : ℕ) (s : Bytes) → Lacks c s → find (c ∷ []) s ≡ none
unfolding find starts_with
find-Lacks c [] k = refl
find-Lacks c (x ∷ s) k = ground (arith, find-Lacks c s k.1)

split_loop_parts :
    (f c : ℕ) (parts : List Bytes) (p : Bytes) (ps : List Bytes)
    → length (p ++ glue (c ∷ []) ps) < f
    → Lacks c p
    → All (Lacks c) ps
    → split_loop f (c ∷ []) parts (p ++ glue (c ∷ []) ps) ≡ some (parts ++ p ∷ ps)
unfolding split_loop glue
split_loop_parts ℕ.zero c parts p ps h k ks = absurd (omega arith)
split_loop_parts (suc f) c parts p [] h k ks = rw append-nil (ground (arith, find-Lacks c p k))
split_loop_parts (suc f) c parts p (q ∷ qs) h k (kq, ks) =
    let rest = q ++ glue (c ∷ []) qs in
    rw (find-Clear (c ∷ []) p rest (Lacks-Clear c p rest k), split_loop)
      (rw (take_prefix p (c ∷ rest), drop_two p (c ∷ []) rest)
        (split_loop_parts f c (parts ++ p ∷ []) q qs (omega (arith, length-append p (c ∷ rest))) kq
            ks
          ∙ ap some (append_assoc parts (p ∷ []) (q ∷ qs))))

-- Splitting a join by a one-byte delimiter gives the parts back, if there is a part and none
-- contains the delimiter.
pub split-join :
    (ps : List Bytes) (c : ℕ)
    → ps ≢ []
    → All (Lacks c) ps
    → split (join_string_vector ps (c ∷ [])) (c ∷ []) ≡ some ps
unfolding split join_string_vector
split-join [] c h k = absurd (h refl)
split-join (p ∷ ps) c h (kp, ks) =
    rw (join_loop-glue (c ∷ []) ps p)
      (split_loop_parts (suc (length (p ++ glue (c ∷ []) ps))) c [] p ps (omega arith) kp ks)
