-- ===== src/Tlv/Send.antt =====
-- `send_tlv` puts the whole packet on the wire, however the calls of `send` cut it.
use cloud_sys.Base.Int.{pos}
use cloud_sys.Base.{
  ℕ, ◌+◌, ◌-◌, ◌%◌, ◌^◌, ◌≤◌, ◌<◌, min, ◌≡◌, ◌≢◌, ◌⊎◌, refl, sym, ap, ◌∙◌, inl, inr, [], ◌∷◌, ◌++◌,
  Option, none, some, ltb, arith, Bool-cases, length, take, drop, take-append-drop, length-take,
  lt→ltb, le→ltb, ltb→lt, ltb→le,
}
use mathlib.Core.List.{append_assoc, append-nil}
use cloud_sys.CString.{Bytes}
use cloud_sys.Tlv.{
  le_bytes, SendPlan, send_loop, then_send, packed, finish_send, send_tlv, char_size,
}
use cloud_sys.Tlv.Encoding.{length-le_bytes, drop-drop, drop_all}

-- Each call of `send` accepts at least one byte.
abbrev pub Accepts : SendPlan → Type 0
Accepts [] = Unit {0}
Accepts (none ∷ plan) = ⊥
Accepts (some k ∷ plan) = (1 ≤ k) × Accepts plan

-- The loop sent what was left of the buffer, with calls to spare.
pub record Sent (buf : Bytes) (total : ℕ) (wire : Bytes) (plan : SendPlan) : Type 0 where
  pub rest : SendPlan
  pub result : send_loop buf total wire plan ≡ some (wire ++ drop total buf, rest)
  pub accepts : Accepts rest
  pub spare : length plan ≤ length rest + (length buf - total)

sent_nothing :
    (buf : Bytes) (total : ℕ) (wire : Bytes) (plan : SendPlan)
    → length buf ≤ total
    → send_loop buf total wire plan ≡ some (wire, plan)
unfolding send_loop
sent_nothing buf total wire [] h = rw (le→ltb total (length buf) h)
sent_nothing buf total wire (none ∷ plan) h = rw (le→ltb total (length buf) h)
sent_nothing buf total wire (some k ∷ plan) h = rw (le→ltb total (length buf) h)

already-Sent :
    (buf : Bytes) (total : ℕ) (wire : Bytes) (plan : SendPlan)
    → length buf ≤ total
    → Accepts plan
    → Sent buf total wire plan
already-Sent buf total wire plan h a = record {
  rest = plan;
  result =
      sent_nothing buf total wire plan h
      ∙ ap (λ w. some (w, plan)) (sym (ap (◌++◌ wire) (drop_all total buf h) ∙ append-nil wire));
  accepts = a;
  spare = omega arith;
}

send_loop_step :
    (buf : Bytes) (total : ℕ) (wire : Bytes) (k : ℕ) (plan : SendPlan)
    → total < length buf
    → length buf < 2 ^ 64
    → let n = min k (length buf - total) in
      send_loop buf total wire (some k ∷ plan)
      ≡ send_loop buf (total + n) (wire ++ take n (drop total buf)) plan
unfolding send_loop
send_loop_step buf total wire k plan h small =
    let n = min k (length buf - total) in
    let e : (total + n) % 2 ^ 64 ≡ total + n = omega arith in rw (lt→ltb total (length buf) h, e)

pub send_loop-Sent :
    (buf : Bytes) (total : ℕ) (wire : Bytes) (plan : SendPlan)
    → Accepts plan
    → length buf - total ≤ length plan
    → length buf < 2 ^ 64
    → Sent buf total wire plan
send_loop-Sent buf total wire [] a enough small = already-Sent buf total wire [] (omega arith) a
send_loop-Sent buf total wire (none ∷ plan) a enough small = absurd a
send_loop-Sent buf total wire (some k ∷ plan) a enough small =
    elim (Bool-cases (ltb total (length buf))) [
      | inr e ↦ already-Sent buf total wire (some k ∷ plan) (ltb→le total (length buf) e) a
      | inl e ↦
          let lt = ltb→lt total (length buf) e in
          let n = min k (length buf - total) in
          let s =
            send_loop-Sent buf (total + n) (wire ++ take n (drop total buf)) plan a.1
              (omega (arith, a.0)) small in
          record {
            rest = s.rest;
            result =
                send_loop_step buf total wire k plan lt small
                ∙ s.result
                ∙ ap (λ w. some (w, s.rest))
                    (append_assoc wire (take n (drop total buf)) (drop (total + n) buf)
                      ∙ ap (λ d. wire ++ (take n (drop total buf) ++ d))
                          (sym (drop-drop n total buf))
                      ∙ ap (◌++◌ wire) (take-append-drop n (drop total buf)));
            accepts = s.accepts;
            spare = omega (arith, s.spare, a.0);
          }
    ]

-- The bytes of a packet: type, length and value.
unfoldable pub image : ℕ → Bytes → Bytes
image type value = le_bytes 4 type ++ (le_bytes 2 (length (packed value)) ++ packed value)

pub length-packed : (value : Bytes) → length (packed value) < char_size
length-packed value = omega (arith, length-take (char_size - 1) value)

-- Three loops in a row.
send_tlv_parts :
    (type : ℕ) (value : Bytes) (plan : SendPlan) {w₁ w₂ w₃ : Bytes} {p₁ p₂ p₃ : SendPlan}
    → send_loop (le_bytes 4 type) 0 [] plan ≡ some (w₁, p₁)
    → send_loop (le_bytes 2 (length (packed value))) 0 w₁ p₁ ≡ some (w₂, p₂)
    → send_loop (packed value) 0 w₂ p₂ ≡ some (w₃, p₃)
    → send_tlv type value plan ≡ some (pos 0, w₃, p₃)
unfolding send_tlv
send_tlv_parts type value plan a b c = rw a (rw b (rw c))

-- If no call fails and there are enough of them, `send_tlv` returns 0 and the wire carries the
-- type, the length and the value cut to the buffer, in this order and nothing else.
pub send_tlv-image :
    (type : ℕ) (value : Bytes) (plan : SendPlan)
    → Accepts plan
    → 6 + length (packed value) ≤ length plan
    → (rest : SendPlan) × (send_tlv type value plan ≡ some (pos 0, image type value, rest))
unfolding image
send_tlv-image type value plan a enough =
    let v = packed value in
    let short = length-packed value in
    let four = length-le_bytes 4 type in
    let two = length-le_bytes 2 (length v) in
    let s = send_loop-Sent (le_bytes 4 type) 0 [] plan a (omega arith) (omega arith) in
    let t =
      send_loop-Sent (le_bytes 2 (length v)) 0 (le_bytes 4 type) s.rest s.accepts
        (omega (arith, s.spare)) (omega arith) in
    let u =
      send_loop-Sent v 0 (le_bytes 4 type ++ le_bytes 2 (length v)) t.rest t.accepts
        (omega (arith, s.spare, t.spare)) (omega arith) in
    (
      u.rest,
      send_tlv_parts type value plan s.result t.result u.result
          ∙ ap (λ w. some (pos 0, w, u.rest)) (append_assoc (le_bytes 4 type) _ v),
    )

-- `send_tlv` never reports a failure: whenever it returns, it returns 0.
pub send_tlv-ret_zero :
    (type : ℕ) (value : Bytes) (plan : SendPlan)
    → (send_tlv type value plan ≡ none)
      ⊎ ((wire : Bytes) × (rest : SendPlan) × (send_tlv type value plan ≡ some (pos 0, wire, rest)))
unfolding send_tlv
send_tlv-ret_zero type value plan = ret (
    then_send
      (then_send (send_loop (le_bytes 4 type) 0 [] plan) (le_bytes 2 (length (packed value))))
      (packed value))
  where
    ret :
        (r : Option (Bytes × SendPlan))
        → (finish_send r ≡ none)
          ⊎ ((wire : Bytes) × (rest : SendPlan) × (finish_send r ≡ some (pos 0, wire, rest)))
    ret none = inl refl
    ret (some (wire, rest)) = inr (wire, rest, refl)

failed_loop :
    (buf wire : Bytes) (plan : SendPlan)
    → 0 < length buf
    → length buf < 2 ^ 64
    → send_loop buf 0 wire (none ∷ plan) ≡ some (wire, plan)
failed_loop buf wire plan h small = step ∙ sent_nothing buf (2 ^ 64 - 1) wire plan (omega arith)
  where
    step : send_loop buf 0 wire (none ∷ plan) ≡ send_loop buf (2 ^ 64 - 1) wire plan
    step = unfold send_loop in rw (lt→ltb 0 (length buf) h)

-- On a dead connection, where each call of `send` returns -1, nothing is sent and the result is 0.
pub send_tlv-dead :
    (type : ℕ) (value : Bytes) (plan : SendPlan)
    → value ≢ []
    → send_tlv type value (none ∷ none ∷ none ∷ plan) ≡ some (pos 0, [], plan)
send_tlv-dead type value plan ne =
    let short = length-packed value in
    send_tlv_parts type value (none ∷ none ∷ none ∷ plan)
      (failed_loop (le_bytes 4 type) [] _ (omega (arith, length-le_bytes 4 type))
        (omega (arith, length-le_bytes 4 type)))
      (failed_loop (le_bytes 2 (length (packed value))) [] _
        (omega (arith, length-le_bytes 2 (length (packed value))))
        (omega (arith, length-le_bytes 2 (length (packed value)))))
      (failed_loop (packed value) [] plan (nonempty value ne) (omega arith))
  where
    nonempty : (v : Bytes) → v ≢ [] → 0 < length (packed v)
    nonempty [] h = absurd (h refl)
    nonempty (b ∷ bs) h = omega arith
