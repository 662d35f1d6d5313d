-- ===== src/Tlv/Receive.antt =====
-- `recv_tlv` reads back what `send_tlv` sent, however the network cuts the stream.
use cloud_sys.Base.Int.{pos}
use cloud_sys.Base.{
  ℕ, true, false, ◌+◌, ◌-◌, ◌≤◌, ◌<◌, ◌≡◌, sym, ap, ◌∙◌, inl, inr, [], ◌∷◌, ◌++◌, none, some, ltb,
  leb, arith, Bool-cases, length, take, drop, take-append-drop, length-drop, lt→ltb, le→ltb, ltb→lt,
  ltb→le, ne→==,
}
use mathlib.Core.List.{append_assoc, append-nil}
use cloud_sys.CString.{Bytes}
use cloud_sys.Tlv.{
  Arrivals, Loop, complete, recv_loop, returns, recv_tlv, le_bytes, from_le, packed, char_size,
}
use cloud_sys.Tlv.Encoding.{
  length-le_bytes, from_le-le_bytes_four, from_le-le_bytes_two, drop-append_left, take-append_left,
  drop-append, take-append_le,
}
use cloud_sys.Tlv.Send.{image, length-packed}

-- The connection neither closes nor fails: each run has at least one byte.
abbrev pub IsOpen : Arrivals → Type 0
IsOpen [] = Unit {0}
IsOpen (none ∷ segs) = ⊥
IsOpen (some s ∷ segs) = (1 ≤ length s) × IsOpen segs

abbrev pub stream : Arrivals → Bytes
stream [] = []
stream (none ∷ segs) = stream segs
stream (some s ∷ segs) = s ++ stream segs

-- The loop read `wanted`, and left `after` to come.
pub record Read (r : Loop) (bytes after : Bytes) : Type 0 where
  pub rest : Arrivals
  pub result : r ≡ complete bytes rest
  pub still_open : IsOpen rest
  pub left : stream rest ≡ after

-- Two ways to write one list, cut at the shorter first part.
split_left : (a b c d : Bytes) → a ++ b ≡ c ++ d → length a ≤ length c → c ≡ a ++ drop (length a) c
split_left a b c d e h =
    sym (take-append-drop (length a) c)
    ∙ ap (λ x. x ++ drop (length a) c)
        (sym (take-append_le (length a) c d h)
          ∙ ap (take (length a)) (sym e)
          ∙ take-append_left a b)

split_right : (a b c d : Bytes) → a ++ b ≡ c ++ d → length a ≤ length c → b ≡ drop (length a) c ++ d
split_right a b c d e h =
    sym (drop-append_left a b) ∙ ap (drop (length a)) e ∙ drop-append (length a) c d h

read_nothing :
    (n total : ℕ) (got : Bytes) (segs : Arrivals)
    → n ≤ total
    → recv_loop n total got segs ≡ complete got segs
unfolding recv_loop
read_nothing n total got [] h = rw (le→ltb total n h)
read_nothing n total got (none ∷ segs) h = rw (le→ltb total n h)
read_nothing n total got (some s ∷ segs) h = rw (le→ltb total n h)

read_whole :
    (n total : ℕ) (got s : Bytes) (segs : Arrivals)
    → total < n
    → 1 ≤ length s
    → length s ≤ n - total
    → recv_loop n total got (some s ∷ segs) ≡ recv_loop n (total + length s) (got ++ s) segs
unfolding recv_loop
read_whole n total got s segs h one fits =
    let le : leb (length s) (n - total) ≡ true = ground arith in
    rw (lt→ltb total n h, ne→== (length s) 0 (omega arith), le)

read_part :
    (n total : ℕ) (got s : Bytes) (segs : Arrivals)
    → total < n
    → n - total < length s
    → recv_loop n total got (some s ∷ segs)
      ≡ complete (got ++ take (n - total) s) (some (drop (n - total) s) ∷ segs)
unfolding recv_loop
read_part n total got s segs h big =
    let gt : leb (length s) (n - total) ≡ false = ground arith in
    rw (lt→ltb total n h, ne→== (length s) 0 (omega arith), gt)

-- The front run ends within what is wanted: the loop goes on behind it.
Read-whole :
    (n total : ℕ) (got s wanted after : Bytes) (segs : Arrivals)
    → 1 ≤ length s
    → total < n
    → length s ≤ n - total
    → wanted ≡ s ++ drop (length s) wanted
    → Read
        (recv_loop n (total + length s) (got ++ s) segs)
        ((got ++ s) ++ drop (length s) wanted)
        after
    → Read (recv_loop n total got (some s ∷ segs)) (got ++ wanted) after
Read-whole n total got s wanted after segs one more fits e r = record {
  rest = r.rest;
  result =
      read_whole n total got s segs more one fits
      ∙ r.result
      ∙ ap (λ g. complete g r.rest)
          (append_assoc got s (drop (length s) wanted) ∙ ap (◌++◌ got) (sym e));
  still_open = r.still_open;
  left = r.left;
}

-- The front run goes beyond it: the loop stops within the run.
Read-part :
    (n total : ℕ) (got s wanted after : Bytes) (segs : Arrivals)
    → IsOpen segs
    → length wanted + total ≡ n
    → total < n
    → n - total < length s
    → s ++ stream segs ≡ wanted ++ after
    → Read (recv_loop n total got (some s ∷ segs)) (got ++ wanted) after
Read-part n total got s wanted after segs o size more big e =
    let k : n - total ≡ length wanted = omega arith in
    let front = split_left wanted after s (stream segs) (sym e) (omega arith) in
    let first : take (n - total) s ≡ wanted =
      ap (λ m. take m s) k
      ∙ ap (take (length wanted)) front
      ∙ take-append_left wanted (drop (length wanted) s) in
    record {
      rest = some (drop (n - total) s) ∷ segs;
      result =
          read_part n total got s segs more big
          ∙ ap (λ g. complete (got ++ g) (some (drop (n - total) s) ∷ segs)) first;
      still_open = (omega (arith, length-drop (n - total) s), o);
      left =
          ap (λ m. drop m s ++ stream segs) k
          ∙ sym (split_right wanted after s (stream segs) (sym e) (omega arith));
    }

pub recv_loop-Read :
    (n total : ℕ) (got wanted after : Bytes) (segs : Arrivals)
    → IsOpen segs
    → stream segs ≡ wanted ++ after
    → length wanted + total ≡ n
    → Read (recv_loop n total got segs) (got ++ wanted) after
recv_loop-Read n total got [] after segs o e size = record {
  rest = segs;
  result =
      read_nothing n total got segs (omega arith)
      ∙ ap (λ g. complete g segs) (sym (append-nil got));
  still_open = o;
  left = e;
}
recv_loop-Read n total got (w ∷ ws) after [] o e size = cc
recv_loop-Read n total got (w ∷ ws) after (none ∷ segs) o e size = absurd o
recv_loop-Read n total got (w ∷ ws) after (some s ∷ segs) o e size =
    let wanted = w ∷ ws in
    elim (Bool-cases (ltb (n - total) (length s))) [
      | inl big ↦
          Read-part n total got s wanted after segs o.1 size (omega arith)
            (ltb→lt (n - total) (length s) big) e
      | inr small ↦
          let fits = ltb→le (n - total) (length s) small in
          let le : length s ≤ length wanted = omega arith in
          Read-whole n total got s wanted after segs o.0 (omega arith) fits
            (split_left s (stream segs) wanted after e le)
            (recv_loop-Read n (total + length s) (got ++ s) (drop (length s) wanted) after segs o.1
              (split_right s (stream segs) wanted after e le)
              (omega (arith, length-drop (length s) wanted)))
    ]

-- The three loops in a row.
recv_tlv_parts :
    (segs s₁ s₂ s₃ : Arrivals) (t l v : Bytes)
    → recv_loop 4 0 [] segs ≡ complete t s₁
    → recv_loop 2 0 [] s₁ ≡ complete l s₂
    → from_le l < char_size
    → recv_loop (from_le l) 0 [] s₂ ≡ complete v s₃
    → recv_tlv segs
      ≡ returns (pos (from_le l)) (record { type = from_le t; len = from_le l; value = v }) s₃
unfolding recv_tlv
recv_tlv_parts segs s₁ s₂ s₃ t l v a b small c =
    rw a (rw b (rw (le→ltb (char_size - 1) (from_le l) (omega arith)) (rw c)))

-- On an open connection `recv_tlv` returns the packet that a `send_tlv` of this type and value
-- puts on the wire, its value cut to the buffer, and leaves what comes behind it unread, however
-- the stream is cut into runs.
pub recv_tlv-image :
    (type : ℕ) (value after : Bytes) (segs : Arrivals)
    → type < 4294967296
    → IsOpen segs
    → stream segs ≡ image type value ++ after
    → (rest : Arrivals) × (recv_tlv segs
        ≡ returns
            (pos (length (packed value)))
            (record { type = type; len = length (packed value); value = packed value })
            rest)
      × (stream rest ≡ after)
unfolding image
recv_tlv-image type value after segs small o e =
    let v = packed value in
    let short = length-packed value in
    let tb = le_bytes 4 type in
    let lb = le_bytes 2 (length v) in
    let e' = e ∙ append_assoc tb (lb ++ v) after ∙ ap (◌++◌ tb) (append_assoc lb v after) in
    let r₁ =
      recv_loop-Read 4 0 [] tb (lb ++ (v ++ after)) segs o e'
        (omega (arith, length-le_bytes 4 type)) in
    let r₂ =
      recv_loop-Read 2 0 [] lb (v ++ after) r₁.rest r₁.still_open r₁.left
        (omega (arith, length-le_bytes 2 (length v))) in
    let l = from_le-le_bytes_two (length v) (omega arith) in
    let r₃ =
      recv_loop-Read (from_le lb) 0 [] v after r₂.rest r₂.still_open r₂.left (omega (arith, l)) in
    (
      r₃.rest,
      recv_tlv_parts segs r₁.rest r₂.rest r₃.rest tb lb v r₁.result r₂.result (omega (arith, l))
            r₃.result
          ∙ ap (λ n. returns (pos n) (record { type = from_le tb; len = n; value = v }) r₃.rest) l
          ∙ ap
              (λ t.
                returns (pos (length v)) (record { type = t; len = length v; value = v }) r₃.rest)
              (from_le-le_bytes_four type small),
      r₃.left,
    )
