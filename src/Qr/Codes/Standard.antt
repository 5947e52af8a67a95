-- ===== src/Qr/Codes/Standard.antt =====
-- src/swelter/qr.py: the codes of the format and of the version, against the tables of ISO/IEC
-- 18004.
use swelter.Prelude.{
  ℕ, zero, suc, ◌+◌, ◌-◌, ◌≤◌, ◌<◌, ◌≡◌, refl, ap, ◌∙◌, List, [], ◌∷◌, get_or, arith,
}
use swelter.Qr.Codes.{format_bits, version_bits}

-- The format information of level M with the masks 0 to 7.
abbrev pub format_table : List ℕ
format_table =
    0b101010000010010 ∷ 0b101000100100101 ∷ 0b101111001111100 ∷ 0b101101101001011
    ∷ 0b100010111111001 ∷ 0b100000011001110 ∷ 0b100111110010111 ∷ 0b100101010100000 ∷ []

-- The version information of the versions 7 to 10.
abbrev pub version_table : List ℕ
version_table = 0x07C94 ∷ 0x085BC ∷ 0x09A99 ∷ 0x0A4D3 ∷ []

pub format_bits-standard : (mask : ℕ) → mask < 8 → format_bits mask ≡ get_or format_table mask 0
unfolding format_bits
format_bits-standard zero h = refl
format_bits-standard (suc zero) h = refl
format_bits-standard (suc (suc zero)) h = refl
format_bits-standard (suc (suc (suc zero))) h = refl
format_bits-standard (suc (suc (suc (suc zero)))) h = refl
format_bits-standard (suc (suc (suc (suc (suc zero))))) h = refl
format_bits-standard (suc (suc (suc (suc (suc (suc zero)))))) h = refl
format_bits-standard (suc (suc (suc (suc (suc (suc (suc zero))))))) h = refl
format_bits-standard (suc (suc (suc (suc (suc (suc (suc (suc mask)))))))) h = absurd (omega arith)

later_versions : (n : ℕ) → n < 4 → version_bits (n + 7) ≡ get_or version_table n 0
unfolding version_bits
later_versions zero h = refl
later_versions (suc zero) h = refl
later_versions (suc (suc zero)) h = refl
later_versions (suc (suc (suc zero))) h = refl
later_versions (suc (suc (suc (suc n)))) h = absurd (omega arith)

pub version_bits-standard :
    (version : ℕ)
    → 7 ≤ version
    → version < 11
    → version_bits version ≡ get_or version_table (version - 7) 0
version_bits-standard version low high =
    let e : version ≡ (version - 7) + 7 = omega arith in
    ap version_bits e ∙ (later_versions (version - 7) (omega arith))
