-- ===== src/Ippkt/Split.antt =====
-- internal/ippkt/ippkt.go: Fragments4, which splits an IPv4 packet into fragments.
use qd.Prelude.{
  ℕ, zero, suc, ◌+◌, ◌-◌, ◌*◌, ◌/◌, ◌%◌, ◌≤◌, ◌<◌, ◌≡◌, refl, sym, ◌∙◌, inl, inr, ◌||◌, Bool, true,
  false, not, List, [], ◌∷◌, ◌++◌, map, ◌==◌, ltb, leb, if◌then◌else◌, length, set, take, drop,
  arith, Bool-cases, length-take, length-drop, length-set, take-drop, drop-append,
}
use qd.Ippkt.{Bytes, byte, u16_at, put_u16, slice, fragment_offset}
use qd.Ippkt.Checksum.{checksum}

-- `at |= 0x2000`
abbrev pub or_more : ℕ → ℕ
or_more at = if at / 0x2000 % 2 == 1 then at else at + 0x2000

-- The header of a fragment of `n` bytes in all, with the word `at` for flags and offset.
unfoldable pub frag_head : Bytes → ℕ → ℕ → Bytes
frag_head pkt n at =
    let head = put_u16 (put_u16 (put_u16 (take 20 pkt) 2 n) 6 at) 10 0 in
    put_u16 head 10 (checksum head)

unfoldable pub frag : Bytes → ℕ → Bool → ℕ → Bytes → Bool → Bytes
frag pkt base more off chunk last =
    let at = (base + off / 8) % 65536 in
    frag_head pkt (20 + length chunk) (if not last || more then or_more at else at) ++ chunk

-- The loop at offset `off`, over what is left of the body.
unfoldable pub frag_loop : ℕ → Bytes → ℕ → ℕ → Bool → ℕ → Bytes → List Bytes
frag_loop zero pkt stride base more off rest = []
frag_loop (suc n) pkt stride base more off rest =
    let later = frag_loop n pkt stride base more (off + stride) (drop stride rest) in
    if length rest == 0
    then []
    else frag pkt base more off (take stride rest) (leb (length rest) stride) ∷ later

-- `int(binary.BigEndian.Uint16(pkt[2:4]))`, and `(size - 20) &^ 7`, which is not positive for a
-- size below 20.
abbrev pub total_of : Bytes → ℕ
total_of pkt = u16_at pkt 2

abbrev pub stride_of : ℕ → ℕ
stride_of size = (size - 20) / 8 * 8

abbrev pub body_of : Bytes → Bytes
body_of pkt = slice pkt 20 (total_of pkt - 20)

-- Each round takes off at least one byte, so the body's length is enough fuel. `[]` is nil.
unfoldable pub fragments4 : Bytes → ℕ → List Bytes
fragments4 pkt size =
    let more = u16_at pkt 6 / 0x2000 % 2 == 1 in
    let frags =
      frag_loop (length (body_of pkt)) pkt (stride_of size) (fragment_offset pkt) more 0
        (body_of pkt) in
    if ltb (length pkt) 20 || not (byte pkt 0 == 0x45) || byte pkt 6 / 64 % 2 == 1
    then []
    else if ltb (length pkt) (total_of pkt) || leb (total_of pkt) size || stride_of size == 0
    then []
    else frags

unfoldable pub join : List Bytes → Bytes
join [] = []
join (x ∷ xs) = x ++ join xs

put_u16-length : (b : Bytes) (i v : ℕ) → length (put_u16 b i v) ≡ length b
put_u16-length b i v =
    length-set (set b i (v / 256 % 256)) (suc i) (v % 256) ∙ length-set b i (v / 256 % 256)

frag_head-length : (pkt : Bytes) (n at : ℕ) → 20 ≤ length pkt → length (frag_head pkt n at) ≡ 20
unfolding frag_head
frag_head-length pkt n at long =
    let h0 = take 20 pkt in
    let h1 = put_u16 h0 2 n in
    let h2 = put_u16 h1 6 at in
    let h3 = put_u16 h2 10 0 in
    put_u16-length h3 10 (checksum h3)
    ∙ put_u16-length h2 10 0
    ∙ put_u16-length h1 6 at
    ∙ put_u16-length h0 2 n
    ∙ omega (arith, length-take 20 pkt)

frag_body :
    (pkt : Bytes) (base : ℕ) (more : Bool) (off : ℕ) (chunk : Bytes) (last : Bool)
    → 20 ≤ length pkt
    → drop 20 (frag pkt base more off chunk last) ≡ chunk
unfolding frag
frag_body pkt base more off chunk last long =
    drop-append 20 _ chunk (frag_head-length pkt (20 + length chunk) _ long)

empty_of : (b : Bytes) → (length b == 0) ≡ true → b ≡ []
empty_of [] e = refl
empty_of (x ∷ xs) e = ground arith

-- The bodies of the fragments, in order, make up what was left.
join-frag_loop :
    (n : ℕ) (pkt : Bytes) (stride base : ℕ) (more : Bool) (off : ℕ) (rest : Bytes)
    → 20 ≤ length pkt
    → 1 ≤ stride
    → length rest ≤ n
    → join (map (drop 20) (frag_loop n pkt stride base more off rest)) ≡ rest
unfolding frag_loop join
join-frag_loop zero pkt stride base more off [] long pos fits = refl
join-frag_loop zero pkt stride base more off (x ∷ rest) long pos fits = absurd (omega arith)
join-frag_loop (suc n) pkt stride base more off rest long pos fits =
    elim (Bool-cases (length rest == 0)) [
      | inl e ↦ rw e (sym (empty_of rest e))
      | inr e ↦
          let shorter : length (drop stride rest) ≤ n =
            (let l = length-drop stride rest in ground arith) in
          let ih =
            join-frag_loop n pkt stride base more (off + stride) (drop stride rest) long pos
              shorter in
          let at = frag_body pkt base more off (take stride rest) (leb (length rest) stride) long in
          rw e (rw at (rw ih (take-drop stride rest)))
    ]

-- For a packet that Fragments4 splits (header of 20 bytes, no DF flag, total length within the
-- packet and above a size of at least 28), the bodies of the fragments, joined in order, are the
-- body of the packet up to its total length.
pub join-fragments4 :
    (pkt : Bytes) (size : ℕ)
    → 20 ≤ length pkt
    → byte pkt 0 ≡ 0x45
    → byte pkt 6 / 64 % 2 ≡ 0
    → total_of pkt ≤ length pkt
    → size < total_of pkt
    → 28 ≤ size
    → join (map (drop 20) (fragments4 pkt size)) ≡ body_of pkt
unfolding fragments4
join-fragments4 pkt size long plain may whole big room =
    let first : (ltb (length pkt) 20 || not (byte pkt 0 == 0x45) || byte pkt 6 / 64 % 2 == 1)
        ≡ false =
      ground arith in
    let second : (ltb (length pkt) (total_of pkt) || leb (total_of pkt) size || stride_of size == 0)
        ≡ false =
      ground arith in
    rw first (
      rw second (
        join-frag_loop (length (body_of pkt)) pkt (stride_of size) (fragment_offset pkt)
          (u16_at pkt 6 / 0x2000 % 2 == 1) 0 (body_of pkt) long (omega arith) (omega arith)))
