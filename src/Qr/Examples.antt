-- ===== src/Qr/Examples.antt =====
-- The codewords, the codes and the matrix of small texts.
use swelter.Prelude.{ℕ, refl, List, [], ◌∷◌, ◌≡◌, refl, [], ◌∷◌}
use swelter.Qr.{
  data_codewords, encode_codewords, stream, put, put_all, fill_byte, chunks, pads, from_digits,
}
use swelter.Qr.Svg.{svg_of, rects_from}
use swelter.Qr.Svg.Painted.{painted, darkness, rects_from-darkness}
use swelter.Qr.Mask.{module_at}
use swelter.Qr.Field.{rs_encode}
use swelter.Qr.Codes.{format_bits, version_bits}
use swelter.Qr.Build.{build_matrix}
use swelter.Qr.Build.Whole.{IsBuilt, build_matrix-IsBuilt}

-- The codewords of AB: the indicator, the length, the two bytes, the terminator and the padding.
two_letters :
    encode_codewords (65 ∷ 66 ∷ []) 1
    ≡ 0x40 ∷ 0x24 ∷ 0x14 ∷ 0x20 ∷ 0xec ∷ 0x11 ∷ 0xec ∷ 0x11 ∷ 0xec ∷ 0x11 ∷ 0xec ∷ 0x11 ∷ 0xec
      ∷ 0x11 ∷ 0xec ∷ 0x11 ∷ []
unfolding encode_codewords stream put put_all fill_byte chunks pads from_digits data_codewords
two_letters = refl

-- The error-correction codewords of HELLO WORLD in version 1.
hello_world :
    rs_encode
      (32 ∷ 91 ∷ 11 ∷ 120 ∷ 209 ∷ 114 ∷ 220 ∷ 77 ∷ 67 ∷ 64 ∷ 236 ∷ 17 ∷ 236 ∷ 17 ∷ 236 ∷ 17 ∷ [])
      10
    ≡ 196 ∷ 35 ∷ 39 ∷ 119 ∷ 235 ∷ 215 ∷ 231 ∷ 226 ∷ 93 ∷ 23 ∷ []
unfolding rs_encode
hello_world = refl

-- The format of mask 5 and the code of version 7, as in the tables of the standard.
codes_of_standard : (format_bits 5 ≡ 0b100000011001110) × (version_bits 7 ≡ 0x07c94)
unfolding format_bits version_bits
codes_of_standard = (refl, refl)

build_matrix-IsBuilt_example : IsBuilt (65 ∷ 66 ∷ []) (build_matrix (65 ∷ 66 ∷ []))
build_matrix-IsBuilt_example = build_matrix-IsBuilt (65 ∷ 66 ∷ [])

abbrev two_rows : List (List ℕ)
two_rows = (1 ∷ 1 ∷ []) ∷ (0 ∷ 1 ∷ []) ∷ []

-- The image of a matrix of two rows, with a quiet zone of four modules of four pixels.
image_of_two_rows :
    svg_of two_rows 4
    ≡ "<svg xmlns=\"http://www.w3.org/2000/svg\" viewBox=\"0 0 40 40\" width=\"40\" height=\"40\" shape-rendering=\"crispEdges\" role=\"img\" aria-label=\"QR code\"><rect width=\"40\" height=\"40\" fill=\"#fff\"/><g fill=\"#000\"><rect x=\"16\" y=\"16\" width=\"8\" height=\"4\"/><rect x=\"20\" y=\"20\" width=\"4\" height=\"4\"/></g></svg>"
unfolding svg_of
image_of_two_rows = refl

rects_from-darkness_example :
    painted (rects_from 0 two_rows) 1 0 ≡ darkness (module_at two_rows 1 0)
rects_from-darkness_example = rects_from-darkness two_rows 1 0
