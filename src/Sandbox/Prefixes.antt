-- ===== src/Sandbox/Prefixes.antt =====
-- `_allowed_ioctl_prefixes` of control/app/sandbox.py. A prefix fixes the bits of a command from bit
-- `free` upwards: its mask is `2 ^ 32 - 2 ^ free`, its value `high * 2 ^ free`, and a command of 32
-- bits agrees with the value under the mask where its quotient by `2 ^ free` is `high`.
use boathouse_cloud.Prelude.{
  ℕ, zero, suc, ◌+◌, ◌-◌, ◌*◌, ◌/◌, ◌%◌, ◌^◌, Bool, false, ◌||◌, List, [], ◌∷◌, ◌++◌, ◌==◌,
  if◌then◌else◌,
}

-- `x & flag`, as 0 or 1
abbrev pub bit_of : ℕ → ℕ → ℕ
bit_of bit x = x / 2 ^ bit % 2

-- `tuple(x for x in blocked if x & flag == choice)`
abbrev pub subset : ℕ → ℕ → List ℕ → List ℕ
subset bit choice [] = []
subset bit choice (x ∷ xs) =
    if bit_of bit x == choice then x ∷ subset bit choice xs else subset bit choice xs

pub record Span : Type 0 where
  pub free : ℕ
  pub high : ℕ

-- The pair that is yielded.
abbrev pub mask : Span → ℕ
mask p = 2 ^ 32 - 2 ^ p.free

abbrev pub value : Span → ℕ
value p = p.high * 2 ^ p.free

-- `_allowed_ioctl_prefixes`, by `bit + 1`: `value | choice` puts one bit under `high`.
unfoldable pub allowed_prefixes : List ℕ → ℕ → ℕ → List Span
allowed_prefixes [] bits high = record { free = bits; high = high } ∷ []
allowed_prefixes (x ∷ xs) zero high = []
allowed_prefixes (x ∷ xs) (suc bit) high =
    allowed_prefixes (subset bit 0 (x ∷ xs)) bit (2 * high)
    ++ allowed_prefixes (subset bit 1 (x ∷ xs)) bit (2 * high + 1)

-- SCMP_CMP_MASKED_EQ of a rule of `profile`
abbrev pub agrees : ℕ → Span → Bool
agrees command p = command / 2 ^ p.free == p.high

unfoldable pub is_allowed : ℕ → List Span → Bool
is_allowed command [] = false
is_allowed command (p ∷ ps) = agrees command p || is_allowed command ps

-- `_QUOTA_IOCTLS`
abbrev pub quota_ioctls : List ℕ
quota_ioctls = 0x401c5820 ∷ 0x40086602 ∷ 0x40046602 ∷ []

-- `command in blocked`
abbrev pub is_blocked : ℕ → List ℕ → Bool
is_blocked command [] = false
is_blocked command (x ∷ xs) = command == x || is_blocked command xs
