-- ===== src/Connection/Datagrams/Retries.antt =====
-- How often a datagram is sent.
use twitter_clone.Prelude.{
  ℕ, zero, suc, ◌+◌, ◌<◌, ◌≤◌, ◌≡◌, refl, ap, ◌∙◌, true, false, arith, subst, pos, ltb_ℤ,
  Bool-cases, inl, inr,
}
use twitter_clone.Connection.{Received, lost, undefined, packet, thrown}
use twitter_clone.Connection.Datagrams.{
  Round, Outcome, returned, is_ack, receive_from, after_answer, send_rounds, send_to, send_tries,
}

-- The datagram could be sent.
abbrev pub Sends : Round → Type 0
Sends r = ltb_ℤ r.sent (pos 0) ≡ false

-- Nothing was received in time, or another packet than an ACK.
abbrev pub NoAck : Received → Type 0
NoAck lost = Unit
NoAck (packet p) = is_ack p.type ≡ false
NoAck undefined = ⊥
NoAck thrown = ⊥

abbrev pub IsAck : Received → Type 0
IsAck (packet p) = is_ack p.type ≡ true
IsAck lost = ⊥
IsAck undefined = ⊥
IsAck thrown = ⊥

next_after :
    (r : Received) (later : Outcome × ℕ) → NoAck r → after_answer r later ≡ (later.0, later.1 + 1)
next_after lost later h = refl
next_after (packet p) later h = rw h refl
next_after undefined later h = absurd h
next_after thrown later h = absurd h

end_after :
    (r : Received) (later : Outcome × ℕ) → IsAck r → after_answer r later ≡ (returned true, 1)
end_after (packet p) later h = rw h refl
end_after lost later h = absurd h
end_after undefined later h = absurd h
end_after thrown later h = absurd h

count_suc : (n : ℕ) {c : ℕ} → c ≤ n + 1 → c ≤ suc n
count_suc n h = omega arith

module _ (now : ℕ) (rounds : ℕ → Round) where
  -- The rounds from `k` on, `n` of them, that end without an ACK.
  abbrev pub Unanswered : ℕ → ℕ → Type 0
  Unanswered k zero = Unit
  Unanswered k (suc n) =
      Sends (rounds k) × NoAck (receive_from now (rounds k).answer) × Unanswered (k + 1) n

  next_round :
      (n k : ℕ)
      → Sends (rounds k)
      → NoAck (receive_from now (rounds k).answer)
      → send_rounds now (suc n) k rounds
        ≡ ((send_rounds now n (k + 1) rounds).0, (send_rounds now n (k + 1) rounds).1 + 1)
  unfolding send_rounds
  next_round n k s h = rw s (next_after (receive_from now (rounds k).answer) _ h)

  never_answered : (n k : ℕ) → Unanswered k n → send_rounds now n k rounds ≡ (returned false, n)
  never_answered zero k h = unfold send_rounds in refl
  never_answered (suc n) k (s, h, rest) =
      next_round n k s h
      ∙ ap (λ o. (o.0, o.1 + 1)) (never_answered n (k + 1) rest)
      ∙ ap (λ c. (returned false, c)) (omega arith)

  answered_now :
      (n k : ℕ)
      → Sends (rounds k)
      → IsAck (receive_from now (rounds k).answer)
      → send_rounds now (suc n) k rounds ≡ (returned true, 1)
  unfolding send_rounds
  answered_now n k s a = rw s (end_after (receive_from now (rounds k).answer) _ a)

  answered_later :
      (j n k : ℕ)
      → j < n
      → Unanswered k j
      → Sends (rounds (k + j))
      → IsAck (receive_from now (rounds (k + j)).answer)
      → send_rounds now n k rounds ≡ (returned true, j + 1)
  answered_later j zero k less h s a = absurd (omega arith)
  answered_later zero (suc n) k less h s a =
      let here : k + 0 ≡ k = omega arith in
      answered_now n k (subst (λ i. Sends (rounds i)) here s)
        (subst (λ i. IsAck (receive_from now (rounds i).answer)) here a)
  answered_later (suc j) (suc n) k less (s', h', rest) s a =
      let there : k + suc j ≡ (k + 1) + j = omega arith in
      next_round n k s' h'
      ∙ ap (λ o. (o.0, o.1 + 1))
          (answered_later j n (k + 1) (omega arith) rest (subst (λ i. Sends (rounds i)) there s)
            (subst (λ i. IsAck (receive_from now (rounds i).answer)) there a))
      ∙ ap (λ c. (returned true, c)) (omega arith)

  count-after_answer :
      (r : Received) (later : Outcome × ℕ) (n : ℕ) → later.1 ≤ n → (after_answer r later).1 ≤ n + 1
  count-after_answer lost later n h = omega arith
  count-after_answer (packet p) later n h = ground arith
  count-after_answer undefined later n h = omega arith
  count-after_answer thrown later n h = omega arith

  count-send_rounds : (n k : ℕ) → (send_rounds now n k rounds).1 ≤ n
  unfolding send_rounds
  count-send_rounds zero k = omega arith
  count-send_rounds (suc n) k = elim (Bool-cases (ltb_ℤ (rounds k).sent (pos 0))) [
    | inl e ↦ rw e (omega arith)
    | inr e ↦ rw e (
        count_suc n (
          count-after_answer (receive_from now (rounds k).answer) (send_rounds now n (k + 1) rounds)
            n (count-send_rounds n (k + 1))))
  ]

  -- With an acknowledgement asked for, a packet is sent at most three times. If one of the three
  -- rounds receives an ACK, and all of them up to it send and those before receive nothing or
  -- another packet, it is sent once in each round up to that one and the result is true; if all
  -- three send and receive no ACK, it is sent three times and the result is false.
  pub send_to_lem :
      ((send_to now true rounds).1 ≤ send_tries)
      × ((j : ℕ)
          → j < send_tries
          → Unanswered 0 j
          → Sends (rounds j)
          → IsAck (receive_from now (rounds j).answer)
          → send_to now true rounds ≡ (returned true, j + 1))
      × (Unanswered 0 send_tries → send_to now true rounds ≡ (returned false, send_tries))
  unfolding send_to
  send_to_lem = (
    count-send_rounds send_tries 0,
    λ j less h s a.
        let start : j ≡ 0 + j = omega arith in
        answered_later j send_tries 0 less h (subst (λ i. Sends (rounds i)) start s)
          (subst (λ i. IsAck (receive_from now (rounds i).answer)) start a),
    λ h. never_answered send_tries 0 h,
  )
