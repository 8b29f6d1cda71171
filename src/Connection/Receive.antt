-- ===== src/Connection/Receive.antt =====
-- receiveAll collects exactly the bytes asked for, however the stream is cut into pieces.
use twitter_clone.Prelude.{
  ℕ, zero, suc, ◌-◌, ◌≤◌, ◌<◌, ◌≡◌, refl, sym, ap, ◌∙◌, false, [], ◌∷◌, ◌++◌, some, arith, ◌==◌,
  length, length-append, Bytes, Lacks, append-nil, append_assoc,
}
use twitter_clone.Packet.Header.{c_str-Lacks}
use twitter_clone.Connection.{Socket, receive_loop, receive_all}

module _ (k : Socket) where
  open k use {Stream, pending, recv, recv_some, recv_bound, recv_next}

  -- Two ways to cut one list, the second cut not before the first.
  cut_further :
      (got rest xs ys : Bytes)
      → got ++ rest ≡ xs ++ ys
      → length got ≤ length xs
      → (zs : Bytes) × (xs ≡ got ++ zs) × (rest ≡ zs ++ ys)
  cut_further [] rest xs ys e h = (xs, refl, e)
  cut_further (g ∷ got) rest [] ys e h = absurd (omega arith)
  cut_further (g ∷ got) rest (x ∷ xs) ys e h =
      let (zs, p, q) = cut_further got rest xs ys (cc) (omega arith) in (zs, cc, q)

  pos-ne-zero : (n : ℕ) → 0 < n → (n == 0) ≡ false
  pos-ne-zero n h = ground arith

  loop_lem :
      (fuel : ℕ) (n : ℕ) (buffer : Bytes) (s : Stream) (xs ys : Bytes)
      → n ≤ fuel
      → length xs ≡ n
      → pending s ≡ xs ++ ys
      → (s' : Stream) × (receive_loop k fuel n buffer s ≡ (some (buffer ++ xs), s'))
        × (pending s' ≡ ys)
  unfolding receive_loop
  loop_lem fuel zero buffer s [] ys h len e = (s, rw append-nil, e)
  loop_lem fuel zero buffer s (x ∷ xs) ys h len e = absurd (omega arith)
  loop_lem zero (suc n) buffer s xs ys h len e = absurd (omega arith)
  loop_lem (suc fuel) (suc n) buffer s [] ys h len e = absurd (omega arith)
  loop_lem (suc fuel) (suc n) buffer s (x ∷ xs) ys h len e =
      let got = (recv s (suc n)).0 in
      let s' = (recv s (suc n)).1 in
      let some_byte : 0 < length got = recv_some s (suc n) (omega arith) (λ e'. cc) in
      let (zs, p, q) =
        cut_further got (pending s') (x ∷ xs) ys (sym (recv_next s (suc n)) ∙ e)
          (omega (arith, recv_bound s (suc n))) in
      let (t, run, rest) =
        loop_lem fuel (suc n - length got) (buffer ++ got) s' zs ys (omega arith)
          (omega (arith, ap length p, length-append got zs)) q in
      (
        t,
        rw (pos-ne-zero (length got) some_byte, receive_loop)
            (run
              ∙ ap (λ b. (some b, t)) (append_assoc buffer got zs ∙ ap (λ b. buffer ++ b) (sym p))),
        rest,
      )

  -- If the bytes asked for are to come, receiveAll returns exactly them, and what is behind them
  -- stays in the stream.
  pub receive_all_lem :
      (s : Stream) (xs ys : Bytes)
      → pending s ≡ xs ++ ys
      → Lacks 0 xs
      → (s' : Stream) × (receive_all k s (length xs) ≡ (some xs, s')) × (pending s' ≡ ys)
  unfolding receive_all
  receive_all_lem s xs ys e h =
      let (s', run, rest) = loop_lem (length xs) (length xs) [] s xs ys (omega arith) refl e in
      (s', rw run (rw (c_str-Lacks xs h)), rest)
