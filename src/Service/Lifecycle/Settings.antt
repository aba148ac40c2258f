-- ===== src/Service/Lifecycle/Settings.antt =====
-- The normalised settings of `CacheService`, and `CacheMode` of service/config.py.
use cache_seek.Prelude.{
  ℕ, ◌+◌, Bool, ◌&&◌, ◌||◌, Option, none, some, [], ◌∷◌, reverse, Text, codes, bytes_eq, ◌==◌, leb,
  nat_eq, if◌then◌else◌,
}

pub data CacheMode : Type 0 where
  read_write read_only write_only : CacheMode

pub data OnFull : Type 0 where
  drop downgrade block sync : OnFull

-- `str.strip()`, and `str.lower()` on ASCII letters: the texts compared with have no others.
unfoldable pub is_space : ℕ → Bool
is_space c =
    nat_eq c 32
    || leb 9 c && leb c 13
    || leb 28 c && leb c 31
    || nat_eq c 133
    || nat_eq c 160
    || nat_eq c 5760
    || leb 8192 c && leb c 8202
    || nat_eq c 8232
    || nat_eq c 8233
    || nat_eq c 8239
    || nat_eq c 8287
    || nat_eq c 12288

unfoldable pub lstrip : Text → Text
unfolding is_space
lstrip [] = []
lstrip (c ∷ cs) = if is_space c then lstrip cs else c ∷ cs

unfoldable pub strip : Text → Text
unfolding lstrip
strip t = reverse (lstrip (reverse (lstrip t)))

unfoldable pub lower : Text → Text
lower [] = []
lower (c ∷ cs) = (if leb 65 c && leb c 90 then c + 32 else c) ∷ lower cs

-- `value or default`
abbrev pub or_default : Option Text → Text → Text
or_default none d = d
or_default (some []) d = d
or_default (some (c ∷ cs)) d = c ∷ cs

unfoldable pub normalize_cache_mode : Option Text → CacheMode
unfolding strip lower
normalize_cache_mode cache_mode =
    let value = lower (strip (or_default cache_mode (codes "read_write"))) in
    if value == codes "read_only"
    then read_only
    else if value == codes "write_only"
    then write_only
    else read_write

unfoldable pub normalize_on_full : Option Text → OnFull
unfolding strip lower
normalize_on_full on_full =
    let value = lower (strip (or_default on_full (codes "drop"))) in
    if value == codes "downgrade"
    then downgrade
    else if value == codes "block"
    then block
    else if value == codes "sync"
    then sync
    else drop
