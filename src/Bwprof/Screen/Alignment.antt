-- ===== src/Bwprof/Screen/Alignment.antt =====
-- The columns of what is shown of a socket.
use hmsdk.Base.{
  ℕ, ◌+◌, ◌-◌, ◌≤◌, ◌<◌, ◌≡◌, refl, [], ◌∷◌, ◌++◌, arith, Bytes, codes, All, length, length-append,
  length-replicate, replicate,
}
use hmsdk.Base.Decimal.RoundTrip.{to_decimal_digit}
use hmsdk.Bwprof.Double.{Double}
use hmsdk.Bwprof.Stats.{BwStats}
use hmsdk.Bwprof.Dump.{pad_left}
use hmsdk.Bwprof.Screen.{socket_line, access_line, total_line, formatted_lines}

length-pad_left : (width : ℕ) (s : Bytes) → length s ≤ width → length (pad_left width s) ≡ width
unfolding pad_left
length-pad_left width s h =
    let spaces : Bytes = replicate (width - length s) b' ' in
    let count : length spaces ≡ width - length s = length-replicate _ _ in
    omega (arith, length-append {0} spaces s, count)

-- The length of a line: its label, three numbers, and what stands between and behind them.
length-line :
    (label x gap y gap' z end : Bytes)
    → length (label ++ (x ++ (gap ++ (y ++ (gap' ++ (z ++ end))))))
      ≡ length label
        + (length x + (length gap + (length y + (length gap' + (length z + length end)))))
length-line label x gap y gap' z end = simp length-append

-- The widths that the formats leave for the numbers.
pub record Fits {D : Type 0} ⦃d : Double D⦄ (s : BwStats D) : Type 0 where
  pub widths :
      All
        (λ x. length (d.fixed 2 x) ≤ 11)
        (s.dram_read_bw ∷ s.dram_write_bw ∷ s.dram_total_bw ∷ s.cxl_read_bw ∷ s.cxl_write_bw
          ∷ s.cxl_total_bw ∷ [])
  pub size_widths :
      All
        (λ x. length (d.fixed 2 x) ≤ 12)
        (s.dram_read_sz ∷ s.dram_write_sz ∷ s.dram_total_sz ∷ s.cxl_read_sz ∷ s.cxl_write_sz
          ∷ s.cxl_total_sz ∷ [])
  pub ratio_widths :
      All
        (λ x. length (d.fixed 1 x) ≤ 5)
        (s.dram_read_ratio ∷ s.dram_write_ratio ∷ s.dram_ratio ∷ s.cxl_read_ratio
          ∷ s.cxl_write_ratio ∷ s.cxl_ratio ∷ [])

length-socket_line : (skt : ℕ) → skt < 10 → length (socket_line skt) ≡ 69
length-socket_line skt h = rw (to_decimal_digit skt h) refl

module _ {D : Type 0} ⦃d : Double D⦄ where
  open d use {fixed}

  module _ (label : Bytes) (bw sz ratio : D) (h : length label ≡ 18) (hb : length (fixed 2 bw) ≤ 11)
      (hs : length (fixed 2 sz) ≤ 12) (hr : length (fixed 1 ratio) ≤ 5) where
    length-access_line : length (access_line label bw sz ratio) ≡ 69
    length-access_line = omega (
      arith,
      length-line label (pad_left 11 (fixed 2 bw)) (codes "  ") (pad_left 12 (fixed 2 sz))
          (codes "       ") (pad_left 5 (fixed 1 ratio)) (codes "%            -"),
      length-pad_left 11 (fixed 2 bw) hb,
      length-pad_left 12 (fixed 2 sz) hs,
      length-pad_left 5 (fixed 1 ratio) hr,
    )

    length-total_line : length (total_line label bw sz ratio) ≡ 69
    length-total_line = omega (
      arith,
      length-line label (pad_left 11 (fixed 2 bw)) (codes "  ") (pad_left 12 (fixed 2 sz))
          (codes "            -       ") (pad_left 5 (fixed 1 ratio)) (codes "%"),
      length-pad_left 11 (fixed 2 bw) hb,
      length-pad_left 12 (fixed 2 sz) hs,
      length-pad_left 5 (fixed 1 ratio) hr,
    )

  -- What is shown of a socket with one digit is aligned: where each number fits the width of its
  -- format, the eight lines are all 69 characters long.
  pub length-formatted_lines :
      (skt : ℕ) (s : BwStats D)
      → skt < 10
      → Fits s
      → All (λ line. length line ≡ 69) (formatted_lines skt s)
  unfolding formatted_lines
  length-formatted_lines skt s h w =
      let (w0, (w1, (w2, (w3, (w4, (w5, _)))))) = w.widths in
      let (s0, (s1, (s2, (s3, (s4, (s5, _)))))) = w.size_widths in
      let (r0, (r1, (r2, (r3, (r4, (r5, _)))))) = w.ratio_widths in
      (
        length-socket_line skt h,
        (
          refl,
          (
            length-access_line (codes "    DRAM   Read   ") s.dram_read_bw s.dram_read_sz
                s.dram_read_ratio refl w0 s0 r0,
            (
              length-access_line (codes "           Write  ") s.dram_write_bw s.dram_write_sz
                  s.dram_write_ratio refl w1 s1 r1,
              (
                length-total_line (codes "           Total  ") s.dram_total_bw s.dram_total_sz
                    s.dram_ratio refl w2 s2 r2,
                (
                  length-access_line (codes "    CXL    Read   ") s.cxl_read_bw s.cxl_read_sz
                      s.cxl_read_ratio refl w3 s3 r3,
                  (
                    length-access_line (codes "           Write  ") s.cxl_write_bw s.cxl_write_sz
                        s.cxl_write_ratio refl w4 s4 r4,
                    (
                      length-total_line (codes "           Total  ") s.cxl_total_bw s.cxl_total_sz
                          s.cxl_ratio refl w5 s5 r5,
                      tt,
                    ),
                  ),
                ),
              ),
            ),
          ),
        ),
      )
