-- ===== src/Nbd/Order.antt =====
-- `Ntohll` of src/nbd_driver_proxy.cpp, on a little-endian machine.
use greencloud.Base.{ℕ, ◌+◌, ◌*◌, ◌/◌, ◌%◌, ◌<◌, ◌≡◌, [], ◌∷◌, Bytes, length, All, arith}

-- The number that the bytes in memory make on a little-endian machine, and in network order.
abbrev pub little : Bytes → ℕ
little [] = 0
little (b ∷ bs) = b + 256 * little bs

abbrev pub big_from : ℕ → Bytes → ℕ
big_from n [] = n
big_from n (b ∷ bs) = big_from (n * 256 + b) bs

-- The library's `ntohl`, and `htonl`, which is the same function: the four bytes reversed.
unfoldable pub ntohl : ℕ → ℕ
ntohl n = n % 256 * 16777216 + n / 256 % 256 * 65536 + n / 65536 % 256 * 256 + n / 16777216 % 256

-- The shift and the or are a product and a sum: the halves have 32 bits each.
unfoldable pub ntohll : ℕ → ℕ
ntohll a = let lo = a % 4294967296 in let hi = a / 4294967296 in ntohl lo * 4294967296 + ntohl hi

pub ntohl_lem :
    (a b c d : ℕ)
    → a < 256
    → b < 256
    → c < 256
    → d < 256
    → ntohl (little (a ∷ b ∷ c ∷ d ∷ [])) ≡ big_from 0 (a ∷ b ∷ c ∷ d ∷ [])
unfolding ntohl
ntohl_lem a b c d ha hb hc hd = omega arith

-- So many bytes, each of eight bits.
abbrev pub IsOctets : ℕ → Bytes → Type 0
IsOctets n bs = (length bs ≡ n) × All (λ b. b < 256) bs

pub ntohl-IsOctets : (bs : Bytes) → IsOctets 4 bs → ntohl (little bs) ≡ big_from 0 bs
ntohl-IsOctets (a ∷ b ∷ c ∷ d ∷ []) (size, (ha, (hb, (hc, (hd, _))))) =
    ntohl_lem a b c d ha hb hc hd
ntohl-IsOctets [] (size, _) = absurd (ground arith)
ntohl-IsOctets (a ∷ []) (size, _) = absurd (ground arith)
ntohl-IsOctets (a ∷ b ∷ []) (size, _) = absurd (ground arith)
ntohl-IsOctets (a ∷ b ∷ c ∷ []) (size, _) = absurd (ground arith)
ntohl-IsOctets (a ∷ b ∷ c ∷ d ∷ e ∷ bs) (size, _) = absurd (ground arith)

-- The number in network order, turned, is the one that its bytes make in memory.
pub ntohl-big_from : (bs : Bytes) → IsOctets 4 bs → ntohl (big_from 0 bs) ≡ little bs
unfolding ntohl
ntohl-big_from (a ∷ b ∷ c ∷ d ∷ []) (size, (ha, (hb, (hc, (hd, _))))) = omega arith
ntohl-big_from [] (size, _) = absurd (ground arith)
ntohl-big_from (a ∷ []) (size, _) = absurd (ground arith)
ntohl-big_from (a ∷ b ∷ []) (size, _) = absurd (ground arith)
ntohl-big_from (a ∷ b ∷ c ∷ []) (size, _) = absurd (ground arith)
ntohl-big_from (a ∷ b ∷ c ∷ d ∷ e ∷ bs) (size, _) = absurd (ground arith)

-- `Ntohll` gives the number that eight bytes in memory are in network order.
pub ntohll_lem :
    (a b c d e f g h : ℕ)
    → a < 256
    → b < 256
    → c < 256
    → d < 256
    → e < 256
    → f < 256
    → g < 256
    → h < 256
    → ntohll (little (a ∷ b ∷ c ∷ d ∷ e ∷ f ∷ g ∷ h ∷ []))
      ≡ big_from 0 (a ∷ b ∷ c ∷ d ∷ e ∷ f ∷ g ∷ h ∷ [])
unfolding ntohll
ntohll_lem a b c d e f g h ha hb hc hd he hf hg hh =
    let low : ℕ = little (a ∷ b ∷ c ∷ d ∷ []) in
    let high : ℕ = little (e ∷ f ∷ g ∷ h ∷ []) in
    let lo_lem : little (a ∷ b ∷ c ∷ d ∷ e ∷ f ∷ g ∷ h ∷ []) % 4294967296 ≡ low = omega arith in
    let hi_lem : little (a ∷ b ∷ c ∷ d ∷ e ∷ f ∷ g ∷ h ∷ []) / 4294967296 ≡ high = omega arith in
    rw (lo_lem, hi_lem, ntohl_lem a b c d ha hb hc hd, ntohl_lem e f g h he hf hg hh) (omega arith)

pub ntohll-IsOctets : (bs : Bytes) → IsOctets 8 bs → ntohll (little bs) ≡ big_from 0 bs
ntohll-IsOctets (a ∷ b ∷ c ∷ d ∷ e ∷ f ∷ g ∷ h ∷ [])
      (size, (ha, (hb, (hc, (hd, (he, (hf, (hg, (hh, _))))))))) =
    ntohll_lem a b c d e f g h ha hb hc hd he hf hg hh
ntohll-IsOctets [] (size, _) = absurd (ground arith)
ntohll-IsOctets (a ∷ []) (size, _) = absurd (ground arith)
ntohll-IsOctets (a ∷ b ∷ []) (size, _) = absurd (ground arith)
ntohll-IsOctets (a ∷ b ∷ c ∷ []) (size, _) = absurd (ground arith)
ntohll-IsOctets (a ∷ b ∷ c ∷ d ∷ []) (size, _) = absurd (ground arith)
ntohll-IsOctets (a ∷ b ∷ c ∷ d ∷ e ∷ []) (size, _) = absurd (ground arith)
ntohll-IsOctets (a ∷ b ∷ c ∷ d ∷ e ∷ f ∷ []) (size, _) = absurd (ground arith)
ntohll-IsOctets (a ∷ b ∷ c ∷ d ∷ e ∷ f ∷ g ∷ []) (size, _) = absurd (ground arith)
ntohll-IsOctets (a ∷ b ∷ c ∷ d ∷ e ∷ f ∷ g ∷ h ∷ i ∷ bs) (size, _) = absurd (ground arith)
