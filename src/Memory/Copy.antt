-- ===== src/Memory/Copy.antt =====
-- `memcpy`, `memmove` and `memset` byte by byte.
use cardinal.Base.{
  ℕ, zero, suc, ◌+◌, ◌-◌, ◌≤◌, ◌<◌, ◌≡◌, Bool, ◌&&◌, ◌⊎◌, arith, ltb, leb, if◌then◌else◌,
}
use cardinal.Memory.{Memory, write, copy_loop, memcpy, move_down, move_up, memmove}

-- Whether the address is one of the `n` from `p`.
abbrev pub inside : ℕ → ℕ → ℕ → Bool
inside p n a = leb p a && ltb a (p + n)

-- The byte that a copy leaves at an address.
abbrev pub copied : Memory → ℕ → ℕ → ℕ → Memory
copied mem dest src n a = if inside dest n a then mem (src + (a - dest)) else mem a

move_up-copied :
    (n : ℕ) (mem : Memory) (pd ps a : ℕ) → pd ≤ ps → move_up n mem pd ps a ≡ copied mem pd ps n a
unfolding move_up write
move_up-copied zero mem pd ps a le = ground arith
move_up-copied (suc n) mem pd ps a le =
    ground (arith, move_up-copied n (write mem pd (mem ps)) (pd + 1) (ps + 1) a (omega arith))

move_down-copied :
    (n : ℕ) (mem : Memory) (pd ps a : ℕ)
    → ps < pd
    → move_down n mem (pd + n) (ps + n) a ≡ copied mem pd ps n a
unfolding move_down write
move_down-copied zero mem pd ps a lt = ground arith
move_down-copied (suc n) mem pd ps a lt =
    ground (arith, move_down-copied n (write mem (pd + n) (mem (ps + n))) pd ps a lt)

-- `memmove` copies the bytes as they were, however the two ranges overlap, and no other byte changes.
pub memmove-copied :
    (mem : Memory) (dest src n a : ℕ) → memmove mem dest src n a ≡ copied mem dest src n a
unfolding memmove
memmove-copied mem dest src n a =
    ground (arith, move_up-copied n mem dest src a, move_down-copied n mem dest src a)

copy_loop-copied :
    (n : ℕ) (mem : Memory) (dest src i a : ℕ)
    → (dest ≤ src) ⊎ (src + i + n ≤ dest + i)
    → copy_loop n mem dest src i a ≡ copied mem (dest + i) (src + i) n a
unfolding copy_loop write
copy_loop-copied zero mem dest src i a apart = ground arith
copy_loop-copied (suc n) mem dest src i a apart =
    ground (arith, copy_loop-copied n (write mem (dest + i) (mem (src + i))) dest src (i + 1) a)

-- `memcpy` copies the bytes as they were where the source does not start below the destination and
-- reach into it.
memcpy-copied :
    (mem : Memory) (dest src n a : ℕ)
    → (dest ≤ src) ⊎ (src + n ≤ dest)
    → memcpy mem dest src n a ≡ copied mem dest src n a
unfolding memcpy
memcpy-copied mem dest src n a apart =
    ground (arith, copy_loop-copied n mem dest src 0 a (omega arith))
