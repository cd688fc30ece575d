-- ===== src/Pseudo/Devfs/Devices.antt =====
-- The devices that a mount adds, and what they do.
use nix_core_os.Base.{
  ℕ, zero, suc, ◌<◌, ◌≡◌, refl, ap, List, [], ◌∷◌, Option, none, some, ℤ, pos, negsuc, replicate,
  codes, length, arith,
}
use nix_core_os.Text.{strcmp}
use nix_core_os.Format.{rand}
use nix_core_os.Pseudo.Devfs.{
  Node, devfs_mount, devfs_lookup, devfs_read, devfs_write, random_bytes,
}

abbrev pub AllBytes : List ℕ → Type 0
AllBytes [] = Unit
AllBytes (b ∷ l) = (b < 256) × AllBytes l

random_bytes_lem :
    (n seed : ℕ) → (length (random_bytes n seed).1 ≡ n) × AllBytes (random_bytes n seed).1
unfolding random_bytes
random_bytes_lem zero seed = (refl, tt)
random_bytes_lem (suc n) seed =
    let (long, small) = random_bytes_lem n (rand seed).0 in (ap suc long, (omega arith, small))

-- A read of a device that is found by its name, and a write to it.
abbrev pub read_named : List Node → ℕ → List ℕ → ℕ → ℕ → Option (ℕ × ℤ × List ℕ)
read_named root seed name count offset = elim (devfs_lookup root name) [
  | none ↦ none
  | some inode ↦ some (devfs_read seed inode count offset)
]

abbrev pub write_named : List Node → List ℕ → List ℕ → ℕ → Option ℤ
write_named root name buf offset = elim (devfs_lookup root name) [
  | none ↦ none
  | some inode ↦ some (devfs_write inode buf offset)
]

-- After a mount, whatever nodes there were: `null` takes all that is written and has nothing to
-- read, `zero` and `random` refuse a write, a read of `zero` is as many zeros as are asked for, and
-- one of `random` or `urandom` as many bytes.
pub devfs_mount_lem :
    (nodes : List Node) (seed count offset : ℕ) (buf : List ℕ)
    → let root = (devfs_mount nodes).0 in
      (read_named root seed (codes "null") count offset ≡ some (seed, pos 0, []))
      × (write_named root (codes "null") buf offset ≡ some (pos (length buf)))
      × (read_named root seed (codes "zero") count offset
          ≡ some (seed, pos count, replicate count 0))
      × (write_named root (codes "zero") buf offset ≡ some (negsuc 0))
      × (write_named root (codes "random") buf offset ≡ some (negsuc 0))
      × ((bytes : List ℕ) × (seed' : ℕ) × (length bytes ≡ count)
          × AllBytes bytes
          × (read_named root seed (codes "random") count offset ≡ some (seed', pos count, bytes))
          × (read_named root seed (codes "urandom") count offset ≡ some (seed', pos count, bytes)))
unfolding devfs_mount devfs_lookup devfs_read devfs_write strcmp
devfs_mount_lem nodes seed count offset buf =
    let (long, small) = random_bytes_lem count seed in
    (
      refl,
      refl,
      refl,
      refl,
      refl,
      ((random_bytes count seed).1, (random_bytes count seed).0, long, small, refl, refl),
    )
