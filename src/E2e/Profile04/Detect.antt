-- ===== src/E2e/Profile04/Detect.antt =====
-- Profile 04: damage to the data shows.
use bsomeip.Common.{
  IsByte, ℕ, ◌+◌, ◌*◌, ◌%◌, ◌^◌, ◌≤◌, ◌<◌, ◌≡◌, ◌≢◌, refl, sym, ap, ◌∙◌, arith, List, [], ◌∷◌, ◌++◌,
  length, length-append, take, drop, All, All-append,
}
use bsomeip.Wire.Bytes.Laws.{read_u16_be_lem, read_u32_be_lem}
use bsomeip.E2e.Crc32.{crc32_ethernet}
use bsomeip.E2e.Crc32.Slicing.{crc32_ethernet-lt}
use bsomeip.E2e.Crc32.Detect.{crc32_ethernet-injective}
use bsomeip.E2e.Result.{wrong_crc}
use bsomeip.E2e.Profile04.{Config, crc_init, protect, check}
use bsomeip.E2e.Profile04.Check.{written, covered-IsByte, protect_lem}

check_mismatch :
    (b0 b1 b2 b3 b4 b5 b6 b7 b8 b9 b10 b11 : ℕ) (rest : List ℕ) (cfg : Config) (last : ℕ)
    → All IsByte (b0 ∷ b1 ∷ b2 ∷ b3 ∷ b4 ∷ b5 ∷ b6 ∷ b7 ∷ b8 ∷ b9 ∷ b10 ∷ b11 ∷ [])
    → b0 * 2 ^ 8 + b1 ≡ length rest + 12
    → b8 * 2 ^ 24 + b9 * 2 ^ 16 + b10 * 2 ^ 8 + b11
      ≢ crc32_ethernet (b0 ∷ b1 ∷ b2 ∷ b3 ∷ b4 ∷ b5 ∷ b6 ∷ b7 ∷ 0 ∷ 0 ∷ 0 ∷ 0 ∷ rest) crc_init
    → check (b0 ∷ b1 ∷ b2 ∷ b3 ∷ b4 ∷ b5 ∷ b6 ∷ b7 ∷ b8 ∷ b9 ∷ b10 ∷ b11 ∷ rest) cfg last
      ≡ (wrong_crc, last)
unfolding check
check_mismatch b0 b1 b2 b3 b4 b5 b6 b7 b8 b9 b10 b11 rest cfg last h l c =
    let p = b0 ∷ b1 ∷ b2 ∷ b3 ∷ b4 ∷ b5 ∷ b6 ∷ b7 ∷ b8 ∷ b9 ∷ b10 ∷ b11 ∷ rest in
    ground (
      arith,
      read_u16_be_lem p 0 (omega arith) (omega arith),
      read_u32_be_lem p 8 (omega arith) (omega arith) (omega arith),
    )

-- A protected payload of which up to four neighbouring bytes of the data behind the header were
-- changed fails the check with `wrong_crc`, and the last counter stays.
pub check_04_burst :
    (payload front xs ys back : List ℕ) (cfg : Config) (counter last : ℕ)
    → 12 ≤ length payload
    → length payload < 2 ^ 16
    → drop 12 payload ≡ front ++ (xs ++ back)
    → All IsByte front × All IsByte xs × All IsByte ys × All IsByte back
    → length xs ≡ length ys
    → length xs ≤ 4
    → xs ≢ ys
    → check (take 12 (protect payload cfg counter) ++ (front ++ (ys ++ back))) cfg last
      ≡ (wrong_crc, last)
check_04_burst (p0 ∷ p1 ∷ p2 ∷ p3 ∷ p4 ∷ p5 ∷ p6 ∷ p7 ∷ p8 ∷ p9 ∷ p10 ∷ p11 ∷ rest) front xs ys back
      cfg counter last long short e (hf, hx, hy, hb) l four ne =
    let body = λ (zs : List ℕ). front ++ (zs ++ back) in
    let same : length (front ++ (ys ++ back)) ≡ length rest = omega (
      arith,
      ap length e,
      length-append front (xs ++ back),
      length-append xs back,
      length-append front (ys ++ back),
      length-append ys back,
    ) in
    let n = (length rest + 12) % 2 ^ 16 in
    let head = written n cfg counter (0 ∷ 0 ∷ 0 ∷ 0 ∷ []) in
    let k = crc32_ethernet (head ++ rest) crc_init in
    let bytes : All IsByte rest =
      rw e (All-append IsByte front (xs ++ back) hf (All-append IsByte xs back hx hb)) in
    let hk : k < 2 ^ 32 =
      crc32_ethernet-lt (head ++ rest) crc_init (covered-IsByte cfg counter rest bytes)
        (omega arith) in
    let differ = λ (q : k ≡ crc32_ethernet (head ++ (front ++ (ys ++ back))) crc_init). ne (
      crc32_ethernet-injective (head ++ front) xs ys back crc_init
        (All-append IsByte head front (omega arith) hf) hx hy hb (omega arith) l four
        (ap (λ r. crc32_ethernet (head ++ r) crc_init) (sym e) ∙ q)) in
    rw (protect_lem p0 p1 p2 p3 p4 p5 p6 p7 p8 p9 p10 p11 rest cfg counter k refl) (
      check_mismatch _ _ _ _ _ _ _ _ _ _ _ _ (front ++ (ys ++ back)) cfg last (omega arith)
        (omega arith) (λ q. differ (omega (arith, q))))
check_04_burst _ front xs ys back cfg counter last long short e h l four ne = absurd (omega arith)
