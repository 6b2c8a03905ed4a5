-- ===== src/Ip/Single.antt =====
-- A network of one address contains exactly the addresses equal to that one.
use Prim.Native.Nat.{bit_and}
use task_discovery_service.Prelude.{
  if◌then◌else◌, drop, ℕ, zero, suc, ◌-◌, ◌<◌, ◌≡◌, ◌⊎◌, inl, inr, refl, sym, subst, ◌∙◌, ◌≢◌, ap,
  Bool, true, false, ◌&&◌, none, some, List, [], ◌∷◌, arith, All, nat_beq, nat_beq_iff, text_beq,
  text_beq_iff, length, take, Bool-cases,
}
use task_discovery_service.Ip.{
  Ip, IpNet, to4, ip_equal, masked_equal, contains_masked, shortest, contains_ip, full_mask,
  v4_in_v6_prefix, network_number_and_mask,
}

-- The two lengths of an address.
pub record IsIp (ip : Ip) : Type 0 where
  pub size : (length ip ≡ 4) ⊎ (length ip ≡ 16)
  pub bytes : All (λ b. b < 256) ip

-- pkg/firewall/indexed_firewall.go, ipToNetwork
unfoldable pub ip_to_network : Ip → IpNet
ip_to_network ip = elim (to4 ip) [
  | some _ ↦ record { ip = ip; mask = full_mask 4 }
  | none ↦ record { ip = ip; mask = full_mask 16 }
]

abbrev masks_itself : ℕ → Bool
masks_itself b = nat_beq (bit_and b 0xff) b

-- The full mask keeps each of so many bytes.
kept_below : ℕ → Bool
kept_below zero = true
kept_below (suc b) = if kept_below b then masks_itself b else false

kept_below-byte : (bound x : ℕ) → x < bound → kept_below bound ≡ true → masks_itself x ≡ true
unfolding kept_below
kept_below-byte zero x lt h = absurd (omega arith)
kept_below-byte (suc b) x lt h = ground (kept_below-byte b x, arith)

bytes_kept : kept_below 256 ≡ true
unfolding kept_below
bytes_kept = refl

byte_mask : (x : ℕ) → x < 256 → bit_and x 0xff ≡ x
byte_mask x h = (nat_beq_iff _ x).0 (kept_below-byte 256 x h bytes_kept)

masked_full :
    (nn x : List ℕ)
    → All (λ b. b < 256) nn
    → All (λ b. b < 256) x
    → length x ≡ length nn
    → masked_equal nn (full_mask (length nn)) x ≡ text_beq nn x
masked_full [] [] h k e = refl
masked_full [] (y ∷ x) h k e = absurd (omega arith)
masked_full (a ∷ nn) [] h k e = absurd (omega arith)
masked_full (a ∷ nn) (y ∷ x) h k e =
    rw (byte_mask a h.0, byte_mask y k.0, masked_full nn x h.1 k.1 (omega arith)) refl

All-drop : (P : ℕ → Type 0) (n : ℕ) (s : List ℕ) → All P s → All P (drop n s)
All-drop P zero s h = h
All-drop P (suc n) [] h = tt
All-drop P (suc n) (c ∷ s) h = All-drop P n s h.1

length-drop : (n : ℕ) (s : List ℕ) → length (drop n s) ≡ length s - n
length-drop zero s = omega arith
length-drop (suc n) [] = omega arith
length-drop (suc n) (c ∷ s) = omega (arith, length-drop n s)

text_beq_split :
    (n : ℕ) (s t : List ℕ)
    → text_beq s t ≡ (text_beq (take n s) (take n t) && text_beq (drop n s) (drop n t))
text_beq_split zero s t = refl
text_beq_split (suc n) [] [] = refl
text_beq_split (suc n) [] (d ∷ t) = refl
text_beq_split (suc n) (c ∷ s) [] = refl
text_beq_split (suc n) (c ∷ s) (d ∷ t) = ground (arith, text_beq_split n s t)

-- The three forms of an address: four bytes, the same inside sixteen, and sixteen others.
data Shape (ip : Ip) : Type 0 where
  four : length ip ≡ 4 → to4 ip ≡ some ip → Shape ip
  mapped :
      length ip ≡ 16
      → text_beq (take 12 ip) v4_in_v6_prefix ≡ true
      → to4 ip ≡ some (drop 12 ip)
      → Shape ip
  six : length ip ≡ 16 → text_beq (take 12 ip) v4_in_v6_prefix ≡ false → to4 ip ≡ none → Shape ip

shape : (ip : Ip) → IsIp ip → Shape ip
unfolding to4
shape ip h = elim h.size [
  | inl e ↦ four e (rw e)
  | inr e ↦ elim (Bool-cases (text_beq (take 12 ip) v4_in_v6_prefix)) [
    | inl p ↦ mapped e p (rw (e, p))
    | inr p ↦ six e p (rw (e, p))
  ]
]

text_beq_lengths : (s t : List ℕ) → length s ≢ length t → text_beq s t ≡ false
text_beq_lengths s t h = elim (Bool-cases (text_beq s t)) [
  | inl e ↦ absurd (h (ap length ((text_beq_iff s t).0 e)))
  | inr e ↦ e
]

masked_equal-beq :
    (nn x : List ℕ)
    → All (λ b. b < 256) nn
    → All (λ b. b < 256) x
    → contains_masked (some (nn, full_mask (length nn))) x ≡ text_beq nn x
masked_equal-beq nn x h k = elim (Bool-cases (nat_beq (length x) (length nn))) [
  | inl e ↦ rw e (masked_full nn x h k ((nat_beq_iff _ _).0 e))
  | inr e ↦ rw e (sym (text_beq_lengths nn x (ground arith)))
]

shortest-some : (ip y : Ip) → to4 ip ≡ some y → shortest ip ≡ y
shortest-some ip y e = rw (e, shortest)

shortest-none : (ip : Ip) → to4 ip ≡ none → shortest ip ≡ ip
shortest-none ip e = rw (e, shortest)

shortest-bytes : (x : Ip) → IsIp x → Shape x → All (λ b. b < 256) (shortest x)
shortest-bytes x k (four a b) = subst (All _) (sym (shortest-some x x b)) k.bytes
shortest-bytes x k (mapped a p b) =
    subst (All _) (sym (shortest-some x _ b)) (All-drop (λ c. c < 256) 12 x k.bytes)
shortest-bytes x k (six a p b) = subst (All _) (sym (shortest-none x b)) k.bytes

number_single :
    (ip : Ip)
    → Shape ip
    → network_number_and_mask (ip_to_network ip)
      ≡ some (shortest ip, full_mask (length (shortest ip)))
unfolding network_number_and_mask ip_to_network
number_single ip (four a b) = rw (shortest-some ip ip b, a) (ground arith)
number_single ip (mapped a p b) =
    let e : length (drop 12 ip) ≡ 4 = omega (arith, length-drop 12 ip) in
    rw (shortest-some ip _ b, e) (ground arith)
number_single ip (six a p b) = rw (shortest-none ip b, a) (ground arith)

equal-Shape : (ip x : Ip) → Shape ip → Shape x → ip_equal ip x ≡ text_beq (shortest ip) (shortest x)
unfolding ip_equal
equal-Shape ip x (four a b) (four c d) = ground (arith)
equal-Shape ip x (four a b) (mapped c p d) = ground (arith)
equal-Shape ip x (four a b) (six c p d) = ground (arith, text_beq_lengths ip x)
equal-Shape ip x (mapped a p b) (four c d) = ground (arith)
equal-Shape ip x (mapped a p b) (mapped c q d) = ground (
  arith,
  text_beq_split 12 ip x,
  text_beq_iff (take 12 ip) v4_in_v6_prefix,
  text_beq_iff (take 12 x) v4_in_v6_prefix,
)
equal-Shape ip x (mapped a p b) (six c q d) = ground (
  arith,
  text_beq_split 12 ip x,
  text_beq_iff (take 12 ip) v4_in_v6_prefix,
  text_beq_iff (take 12 x) v4_in_v6_prefix,
  text_beq_iff (take 12 x) (take 12 ip),
  length-drop 12 ip,
  text_beq_lengths (drop 12 ip) x,
)
equal-Shape ip x (six a p b) (four c d) = ground (arith, text_beq_lengths ip x)
equal-Shape ip x (six a p b) (mapped c q d) = ground (
  arith,
  text_beq_split 12 ip x,
  text_beq_iff (take 12 x) v4_in_v6_prefix,
  text_beq_iff (take 12 ip) (take 12 x),
  length-drop 12 x,
  text_beq_lengths ip (drop 12 x),
)
equal-Shape ip x (six a p b) (six c q d) = ground (arith)

-- On addresses of either length the network of one address decides as Equal does.
pub contains-ip_to_network :
    (ip x : Ip) → IsIp ip → IsIp x → contains_ip (ip_to_network ip) x ≡ ip_equal ip x
unfolding contains_ip
contains-ip_to_network ip x h k =
    let s = shape ip h in
    let t = shape x k in
    rw (number_single ip s) (
      masked_equal-beq (shortest ip) (shortest x) (shortest-bytes ip h s) (shortest-bytes x k t)
      ∙ sym (equal-Shape ip x s t))
