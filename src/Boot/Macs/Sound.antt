-- ===== src/Boot/Macs/Sound.antt =====
-- The addresses that `factory_macs` returns.
use edgepi_e87n.Base.{
  ℕ, zero, suc, ◌/◌, ◌%◌, ◌<◌, ◌≡◌, ◌≢◌, refl, ap, Bool, true, false, [], ◌∷◌, ltb, length, all,
  length-take, length-drop, Bytes, ◌=ᵇ◌, =ᵇ_refl, take, drop, arith, ok,
}
use edgepi_e87n.Boot.Macs.{hex_digit, mac_text, factory_macs, is_hex, is_mac}

hex_digit-is_hex : (n : ℕ) → n < 16 → is_hex (hex_digit n) ≡ true
hex_digit-is_hex n h = ground arith

hex_digit-injective : (m n : ℕ) → m < 16 → n < 16 → hex_digit m ≡ hex_digit n → m ≡ n
hex_digit-injective m n p q h = ground arith

unfoldable pub are_bytes : Bytes → Bool
are_bytes = all (λ b. ltb b 256)

mac_text-is_mac :
    (k : ℕ) (v : Bytes) → length v ≡ suc k → are_bytes v ≡ true → is_mac k (mac_text v) ≡ true
unfolding mac_text is_mac are_bytes
mac_text-is_mac zero (b ∷ []) n h =
    ground (arith, hex_digit-is_hex (b / 16), hex_digit-is_hex (b % 16))
mac_text-is_mac (suc k) (b ∷ c ∷ v) n h =
    ground (arith, hex_digit-is_hex (b / 16), hex_digit-is_hex (b % 16), mac_text-is_mac k (c ∷ v))
mac_text-is_mac k [] n h = absurd (omega arith)
mac_text-is_mac (suc k) (b ∷ []) n h = absurd (omega arith)
mac_text-is_mac zero (b ∷ c ∷ v) n h = absurd (omega arith)

hex_byte-injective :
    (b c : ℕ)
    → b < 256
    → c < 256
    → hex_digit (b / 16) ≡ hex_digit (c / 16)
    → hex_digit (b % 16) ≡ hex_digit (c % 16)
    → b ≡ c
hex_byte-injective b c p q high low = omega (
  arith,
  hex_digit-injective (b / 16) (c / 16) (omega arith) (omega arith) high,
  hex_digit-injective (b % 16) (c % 16) (omega arith) (omega arith) low,
)

head_eq : (x y : ℕ) (xs ys : Bytes) → (x ∷ xs) ≡ (y ∷ ys) → (x ≡ y) × (xs ≡ ys)
head_eq x y xs ys h = (cc, cc)

-- two texts of equally many bytes are equal only where the bytes are
mac_text-injective :
    (v w : Bytes)
    → length v ≡ length w
    → are_bytes v ≡ true
    → are_bytes w ≡ true
    → mac_text v ≡ mac_text w
    → v ≡ w
unfolding mac_text are_bytes
mac_text-injective [] [] n p q h = refl
mac_text-injective (b ∷ []) (c ∷ []) n p q h =
    let (high, rest) = head_eq _ _ _ _ h in
    let (low, _) = head_eq _ _ _ _ rest in
    ap (λ (x : ℕ). x ∷ []) (hex_byte-injective b c (ground (arith, p)) (ground (arith, q)) high low)
mac_text-injective (b ∷ b' ∷ v) (c ∷ c' ∷ w) n p q h =
    let (high, rest) = head_eq _ _ _ _ h in
    let (low, colon) = head_eq _ _ _ _ rest in
    let (_, more) = head_eq _ _ _ _ colon in
    let first = hex_byte-injective b c (ground (arith, p)) (ground (arith, q)) high low in
    let others =
      mac_text-injective (b' ∷ v) (c' ∷ w) (omega (arith, n)) (ground (arith, p))
        (ground (arith, q)) more in
    cc
mac_text-injective [] (c ∷ w) n p q h = absurd (omega (arith, n))
mac_text-injective (b ∷ v) [] n p q h = absurd (omega (arith, n))
mac_text-injective (b ∷ []) (c ∷ c' ∷ w) n p q h = absurd (omega (arith, n))
mac_text-injective (b ∷ b' ∷ v) (c ∷ []) n p q h = absurd (omega (arith, n))

all-take : (p : ℕ → Bool) (n : ℕ) (xs : Bytes) → all p xs ≡ true → all p (take n xs) ≡ true
all-take p zero xs h = refl
all-take p (suc n) [] h = refl
all-take p (suc n) (x ∷ xs) h = ground (arith, all-take p n xs)

all-drop : (p : ℕ → Bool) (n : ℕ) (xs : Bytes) → all p xs ≡ true → all p (drop n xs) ≡ true
all-drop p zero xs h = h
all-drop p (suc n) [] h = refl
all-drop p (suc n) (x ∷ xs) h = all-drop p n xs (ground (arith, h))

-- The two addresses that are read from twelve bytes of the factory partition are different, and
-- both have the form that `port_networks` asks of a MAC address: six lower-case pairs of
-- hexadecimal digits.
pub factory_macs-is_mac :
    (data' : Bytes) {first second : Bytes}
    → are_bytes data' ≡ true
    → factory_macs data' ≡ ok (first, second)
    → (is_mac 5 first ≡ true) × (is_mac 5 second ≡ true) × (first ≢ second)
unfolding factory_macs
factory_macs-is_mac data' {first} {second} bytes h =
    let a = take 6 data' in
    let b = drop 6 data' in
    let size : length data' ≡ 12 = ground arith in
    let differ : (a =ᵇ b) ≡ false = ground arith in
    let first_is : first ≡ mac_text a = ground arith in
    let second_is : second ≡ mac_text b = ground arith in
    let a_size : length a ≡ 6 = omega (arith, length-take 6 data') in
    let b_size : length b ≡ 6 = omega (arith, length-drop 6 data') in
    let a_bytes : are_bytes a ≡ true =
      unfold are_bytes in all-take (λ b. ltb b 256) 6 data' bytes in
    let b_bytes : are_bytes b ≡ true =
      unfold are_bytes in all-drop (λ b. ltb b 256) 6 data' bytes in
    (
      rw first_is (mac_text-is_mac 5 a a_size a_bytes),
      rw second_is (mac_text-is_mac 5 b b_size b_bytes),
      λ same.
          let texts : mac_text a ≡ mac_text b = cc in
          let equal = mac_text-injective a b (omega arith) a_bytes b_bytes texts in
          ground (arith, ap (λ t. a =ᵇ t) equal, =ᵇ_refl a),
    )
