-- ===== src/Compat/Message/Setters.antt =====
-- What the setters of a header change, and what they leave.
use bsomeip.Common.{
  IsByte, ℕ, ◌+◌, ◌*◌, ◌/◌, ◌%◌, ◌^◌, ◌≤◌, ◌<◌, ◌≡◌, refl, sym, ap, ◌∙◌, List, [], ◌∷◌, ◌++◌,
  length, take, drop, All, arith,
}
use bsomeip.Wire.HeaderView.{
  set_service, set_method, set_client, set_session, set_interface_ver, set_msg_type, set_ret_code,
  set_payload_length,
}
use bsomeip.Wire.Header.{Fields, fields, fields_of_bytes}

-- A buffer written over another: the header says `f`, and all else is as it was.
abbrev pub Written : (new old : List ℕ) → Fields → Type 0
Written new old f =
    (fields new ≡ f)
    × (drop 16 new ≡ drop 16 old)
    × (length new ≡ length old)
    × All IsByte (take 16 new)

u16_bytes_lem : (v : ℕ) → v < 2 ^ 16 → v / 2 ^ 8 % 2 ^ 8 * 2 ^ 8 + v % 2 ^ 8 ≡ v
u16_bytes_lem v h = omega arith

u32_bytes_lem :
    (v : ℕ)
    → v < 2 ^ 32
    → let l = v % 2 ^ 32 in
      l / 2 ^ 24 % 2 ^ 8 * 2 ^ 24
        + l / 2 ^ 16 % 2 ^ 8 * 2 ^ 16
        + l / 2 ^ 8 % 2 ^ 8 * 2 ^ 8
        + l % 2 ^ 8
      ≡ v
u32_bytes_lem v h = omega arith

pub setters_lem :
    (buf : List ℕ) (s mid c n v t r size : ℕ)
    → 16 ≤ length buf
    → All IsByte (take 16 buf)
    → All (λ x. x < 2 ^ 16) (s ∷ mid ∷ c ∷ n ∷ [])
    → All IsByte (v ∷ t ∷ r ∷ [])
    → size + 8 < 2 ^ 32
    → let f = fields buf in
      Written (set_service buf s) buf (record f { service = s })
      × Written (set_method buf mid) buf (record f { method = mid })
      × Written (set_client buf c) buf (record f { client = c })
      × Written (set_session buf n) buf (record f { session = n })
      × Written (set_interface_ver buf v) buf (record f { interface_ver = v })
      × Written (set_msg_type buf t) buf (record f { msg_type = t })
      × Written (set_ret_code buf r) buf (record f { ret_code = r })
      × Written (set_payload_length buf size) buf (record f { length_field = size + 8 })
unfolding set_service set_method set_client set_session set_interface_ver set_msg_type set_ret_code
    set_payload_length
setters_lem
      (b0 ∷ b1 ∷ b2 ∷ b3 ∷ b4 ∷ b5 ∷ b6 ∷ b7 ∷ b8 ∷ b9 ∷ b10 ∷ b11 ∷ b12 ∷ b13 ∷ b14 ∷ b15 ∷ rest) s
      mid c n v t r size h hb ids types small =
    let l = (size + 8) % 2 ^ 32 in
    let of = fields_of_bytes in
    let old : Fields = record {
      service = b0 * 2 ^ 8 + b1;
      method = b2 * 2 ^ 8 + b3;
      length_field = b4 * 2 ^ 24 + b5 * 2 ^ 16 + b6 * 2 ^ 8 + b7;
      client = b8 * 2 ^ 8 + b9;
      session = b10 * 2 ^ 8 + b11;
      protocol_ver = b12;
      interface_ver = b13;
      msg_type = b14;
      ret_code = b15;
    } in
    let e : fields (
          b0 ∷ b1 ∷ b2 ∷ b3 ∷ b4 ∷ b5 ∷ b6 ∷ b7 ∷ b8 ∷ b9 ∷ b10 ∷ b11 ∷ b12 ∷ b13 ∷ b14 ∷ b15
          ∷ rest)
        ≡ old =
      of b0 b1 b2 b3 b4 b5 b6 b7 b8 b9 b10 b11 b12 b13 b14 b15 rest (omega arith) in
    (
      (
        of (s / 2 ^ 8 % 2 ^ 8) (s % 2 ^ 8) b2 b3 b4 b5 b6 b7 b8 b9 b10 b11 b12 b13 b14 b15 rest
              (omega arith)
            ∙ ap (λ x. record old { service = x }) (u16_bytes_lem s (omega arith))
            ∙ sym (ap (λ (g : Fields). record g { service = s }) e),
        refl,
        refl,
        omega arith,
      ),
      (
        of b0 b1 (mid / 2 ^ 8 % 2 ^ 8) (mid % 2 ^ 8) b4 b5 b6 b7 b8 b9 b10 b11 b12 b13 b14 b15 rest
              (omega arith)
            ∙ ap (λ x. record old { method = x }) (u16_bytes_lem mid (omega arith))
            ∙ sym (ap (λ (g : Fields). record g { method = mid }) e),
        refl,
        refl,
        omega arith,
      ),
      (
        of b0 b1 b2 b3 b4 b5 b6 b7 (c / 2 ^ 8 % 2 ^ 8) (c % 2 ^ 8) b10 b11 b12 b13 b14 b15 rest
              (omega arith)
            ∙ ap (λ x. record old { client = x }) (u16_bytes_lem c (omega arith))
            ∙ sym (ap (λ (g : Fields). record g { client = c }) e),
        refl,
        refl,
        omega arith,
      ),
      (
        of b0 b1 b2 b3 b4 b5 b6 b7 b8 b9 (n / 2 ^ 8 % 2 ^ 8) (n % 2 ^ 8) b12 b13 b14 b15 rest
              (omega arith)
            ∙ ap (λ x. record old { session = x }) (u16_bytes_lem n (omega arith))
            ∙ sym (ap (λ (g : Fields). record g { session = n }) e),
        refl,
        refl,
        omega arith,
      ),
      (
        of b0 b1 b2 b3 b4 b5 b6 b7 b8 b9 b10 b11 b12 v b14 b15 rest (omega arith)
            ∙ sym (ap (λ (g : Fields). record g { interface_ver = v }) e),
        refl,
        refl,
        omega arith,
      ),
      (
        of b0 b1 b2 b3 b4 b5 b6 b7 b8 b9 b10 b11 b12 b13 t b15 rest (omega arith)
            ∙ sym (ap (λ (g : Fields). record g { msg_type = t }) e),
        refl,
        refl,
        omega arith,
      ),
      (
        of b0 b1 b2 b3 b4 b5 b6 b7 b8 b9 b10 b11 b12 b13 b14 r rest (omega arith)
            ∙ sym (ap (λ (g : Fields). record g { ret_code = r }) e),
        refl,
        refl,
        omega arith,
      ),
      (
        of b0 b1 b2 b3 (l / 2 ^ 24 % 2 ^ 8) (l / 2 ^ 16 % 2 ^ 8) (l / 2 ^ 8 % 2 ^ 8) (l % 2 ^ 8) b8
              b9 b10 b11 b12 b13 b14 b15 rest (omega arith)
            ∙ ap (λ x. record old { length_field = x }) (u32_bytes_lem (size + 8) small)
            ∙ sym (ap (λ (g : Fields). record g { length_field = size + 8 }) e),
        refl,
        refl,
        omega arith,
      ),
    )
setters_lem _ s mid c n v t r size h hb ids types small = absurd (omega arith)

-- A header with another payload behind it.
pub another_payload :
    (buf p : List ℕ)
    → 16 ≤ length buf
    → All IsByte (take 16 buf)
    → (fields (take 16 buf ++ p) ≡ fields buf)
      × (drop 16 (take 16 buf ++ p) ≡ p)
      × (length (take 16 buf ++ p) ≡ 16 + length p)
      × All IsByte (take 16 (take 16 buf ++ p))
another_payload
      (b0 ∷ b1 ∷ b2 ∷ b3 ∷ b4 ∷ b5 ∷ b6 ∷ b7 ∷ b8 ∷ b9 ∷ b10 ∷ b11 ∷ b12 ∷ b13 ∷ b14 ∷ b15 ∷ rest) p
      h hb =
    let of =
      λ (q : List ℕ). fields_of_bytes b0 b1 b2 b3 b4 b5 b6 b7 b8 b9 b10 b11 b12 b13 b14 b15 q hb in
    (of p ∙ sym (of rest), refl, omega arith, hb)
another_payload _ p h hb = absurd (omega arith)
