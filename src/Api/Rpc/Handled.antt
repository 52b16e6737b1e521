-- ===== src/Api/Rpc/Handled.antt =====
-- A message whose payload is filled in.
use bsomeip.Common.{
  IsByte, ℕ, length-take, ◌+◌, ◌-◌, ◌*◌, ◌/◌, ◌%◌, ◌^◌, ◌≤◌, ◌<◌, ◌≡◌, refl, sym, ap, ◌∙◌, subst,
  true, false, List, [], ◌∷◌, ◌++◌, length, length-drop, take, drop, drop_all, take-append, All,
  ltb, leb, Bool-cases, inl, inr, arith,
}
use bsomeip.Wire.HeaderView
use bsomeip.Wire.HeaderView.{payload_length, set_payload_length}
use bsomeip.Wire.Header.{Fields, fields, fields_of_bytes}
use bsomeip.Wire.Codec.{Members, Values, done, serialize}
use bsomeip.Wire.Codec.Layout.{MembersFit, members_size, members_bytes, length-members_bytes}
use bsomeip.Wire.Codec.Checked.{serialize_lem}
use bsomeip.Api.Message.{payload}
use bsomeip.Api.Rpc.{fill}

pub payload_lem : (msg : List ℕ) → payload msg ≡ drop 16 msg
unfolding payload
payload_lem msg = elim (Bool-cases (leb (length msg) 16)) [
  | inl t ↦ rw t (sym (drop_all 16 msg (ground (arith, t))))
  | inr t ↦ rw t refl
]

-- A message with this header but for its length, and this payload.
abbrev pub Carries : (msg : List ℕ) → Fields → (payload : List ℕ) → Type 0
Carries msg f p =
    (fields msg ≡ record f { length_field = length p + 8 })
    × (drop 16 msg ≡ p)
    × (length msg ≡ 16 + length p)
    × (payload_length msg ≡ length p)

pub payload_length_of :
    (msg : List ℕ) (n : ℕ) → HeaderView.length msg ≡ n + 8 → payload_length msg ≡ n
unfolding payload_length
payload_length_of msg n e =
    let long : leb 8 (HeaderView.length msg) ≡ true = ground (arith, e) in
    rw (long, e) (omega arith)

length_path :
    (n : ℕ)
    → n + 8 < 2 ^ 32
    → let l = (n % 2 ^ 32 + 8) % 2 ^ 32 in
      l / 2 ^ 24 % 2 ^ 8 * 2 ^ 24
        + l / 2 ^ 16 % 2 ^ 8 * 2 ^ 16
        + l / 2 ^ 8 % 2 ^ 8 * 2 ^ 8
        + l % 2 ^ 8
      ≡ n + 8
length_path n h = omega arith

set_length_lem :
    (front rest bs : List ℕ)
    → length front ≡ 16
    → All IsByte front
    → length bs + 8 < 2 ^ 32
    → Carries
        (take (16 + length bs) (set_payload_length (front ++ (bs ++ rest)) (length bs % 2 ^ 32)))
        (fields front)
        bs
unfolding set_payload_length
set_length_lem
      (b0 ∷ b1 ∷ b2 ∷ b3 ∷ b4 ∷ b5 ∷ b6 ∷ b7 ∷ b8 ∷ b9 ∷ b10 ∷ b11 ∷ b12 ∷ b13 ∷ b14 ∷ b15 ∷ [])
      rest bs h hb small =
    let n = length bs in
    let l = (n % 2 ^ 32 + 8) % 2 ^ 32 in
    let hdr =
      b0
      ∷ b1
      ∷ b2
      ∷ b3
      ∷ (l / 2 ^ 24 % 2 ^ 8)
      ∷ (l / 2 ^ 16 % 2 ^ 8)
      ∷ (l / 2 ^ 8 % 2 ^ 8)
      ∷ (l % 2 ^ 8)
      ∷ b8
      ∷ b9
      ∷ b10
      ∷ b11
      ∷ b12
      ∷ b13
      ∷ b14
      ∷ b15
      ∷ [] in
    let old = fields_of_bytes b0 b1 b2 b3 b4 b5 b6 b7 b8 b9 b10 b11 b12 b13 b14 b15 [] hb in
    let new =
      fields_of_bytes b0 b1 b2 b3 (l / 2 ^ 24 % 2 ^ 8) (l / 2 ^ 16 % 2 ^ 8) (l / 2 ^ 8 % 2 ^ 8)
        (l % 2 ^ 8) b8 b9 b10 b11 b12 b13 b14 b15 bs (omega arith) in
    let e : fields (hdr ++ bs)
        ≡ record (fields (
            b0 ∷ b1 ∷ b2 ∷ b3 ∷ b4 ∷ b5 ∷ b6 ∷ b7 ∷ b8 ∷ b9 ∷ b10 ∷ b11 ∷ b12 ∷ b13 ∷ b14 ∷ b15
            ∷ [])) { length_field = n + 8 } =
      new
      ∙ (λ i. record {
        service = b0 * 2 ^ 8 + b1;
        method = b2 * 2 ^ 8 + b3;
        length_field = length_path n small i;
        client = b8 * 2 ^ 8 + b9;
        session = b10 * 2 ^ 8 + b11;
        protocol_ver = b12;
        interface_ver = b13;
        msg_type = b14;
        ret_code = b15;
      })
      ∙ ap (λ (f : Fields). record f { length_field = n + 8 }) (sym old) in
    let cut : take (16 + n) (hdr ++ (bs ++ rest)) ≡ hdr ++ bs =
      take-append (16 + n) (hdr ++ bs) rest (omega arith) in
    rw cut (
      e,
      refl,
      omega arith,
      payload_length_of (hdr ++ bs) n (ap (λ (f : Fields). f.length_field) e),
    )
set_length_lem _ rest bs h hb small = absurd (omega arith)

fields-take : (msg : List ℕ) → 16 ≤ length msg → fields (take 16 msg) ≡ fields msg
unfolding HeaderView.service HeaderView.method HeaderView.length HeaderView.client
    HeaderView.session HeaderView.protocol_ver HeaderView.interface_ver HeaderView.msg_type
    HeaderView.ret_code
fields-take
      (b0 ∷ b1 ∷ b2 ∷ b3 ∷ b4 ∷ b5 ∷ b6 ∷ b7 ∷ b8 ∷ b9 ∷ b10 ∷ b11 ∷ b12 ∷ b13 ∷ b14 ∷ b15 ∷ rest)
      h =
    refl
fields-take _ h = absurd (omega arith)

-- A message with room is filled, and carries its header and the bytes of the value.
pub fill_lem :
    (msg : List ℕ) (ms : Members) (v : Values ms)
    → MembersFit ms v
    → 16 + members_size ms ≤ length msg
    → All IsByte (take 16 msg)
    → members_size ms + 8 < 2 ^ 32
    → (filled : List ℕ) × (fill msg ms v ≡ done filled)
      × Carries filled (fields msg) (members_bytes ms v)
unfolding fill
fill_lem msg ms v fits room hb small =
    let n = members_size ms in
    let bs = members_bytes ms v in
    let rest = drop n (payload msg) in
    let size = length-members_bytes ms v fits in
    let behind : length (payload msg) ≡ length msg - 16 =
      ap length (payload_lem msg) ∙ length-drop 16 msg in
    let big : ltb (length (payload msg)) n ≡ false = ground (arith, behind) in
    let wrote : serialize ms (payload msg) v ≡ done (bs ++ rest, n) =
      serialize_lem ms (payload msg) v fits ∙ rw big refl in
    let finish =
      λ (k : ℕ). take (16 + k) (set_payload_length (take 16 msg ++ (bs ++ rest)) (k % 2 ^ 32)) in
    let front : length (take 16 msg) ≡ 16 = omega (arith, length-take 16 msg) in
    (
      finish (length bs),
      rw wrote (λ i. done (finish (sym size i))),
      subst (λ f. Carries (finish (length bs)) f bs) (fields-take msg (omega arith))
          (set_length_lem (take 16 msg) rest bs front hb (omega (arith, size))),
    )
