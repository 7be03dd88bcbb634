-- ===== src/Fs/Path/Walk.antt =====
-- Paths as lists of names: splitting what was joined, the parent's path, and the walk in two parts.
use mathlib.Core.List.{append_assoc, append-nil}
use neu_cs5600_cmpsys.Base.{
  ℕ, suc, ◌+◌, ◌≤◌, ◌<◌, ◌≡◌, ◌≢◌, refl, ap, ◌∙◌, true, false, List, [], ◌∷◌, ◌++◌, Option, none,
  some, ◌==◌, length, take, arith,
}
use neu_cs5600_cmpsys.Base.Bytes.{Bytes}
use neu_cs5600_cmpsys.Fs.Monad.{Disk, done}
use neu_cs5600_cmpsys.Fs.Path.{
  add_token, tokens_from, max_levels, sep_path, par_len, par_path, Ret, found, missing, lookup_in,
  then_walk, walk, path2inum, path_inum, root_inum, is_absolute,
}

-- A name: no slash inside.
abbrev pub NoSlash : Bytes → Type 0
NoSlash [] = Unit
NoSlash (c ∷ s) = ((c == b'/') ≡ false) × NoSlash s

abbrev pub IsName : Bytes → Type 0
IsName t = NoSlash t × (t ≢ [])

abbrev pub AreNames : List Bytes → Type 0
AreNames [] = Unit
AreNames (t ∷ ts) = IsName t × AreNames ts

-- The path with one slash before each name.
abbrev pub join : List Bytes → Bytes
join [] = []
join (t ∷ ts) = b'/' ∷ (t ++ join ts)

tokens_from-name :
    (t s rest : Bytes) → NoSlash s → tokens_from t (s ++ rest) ≡ tokens_from (t ++ s) rest
unfolding tokens_from
tokens_from-name t [] rest h = rw append-nil refl
tokens_from-name t (c ∷ s) rest h =
    rw (h.0, tokens_from) (tokens_from-name (t ++ c ∷ []) s rest h.1 ∙ rw append_assoc refl)

add_token_lem : (t : Bytes) (ts : List Bytes) → t ≢ [] → add_token t ts ≡ t ∷ ts
add_token_lem [] ts h = absurd (h refl)
add_token_lem (c ∷ t) ts h = refl

-- The rest of a path behind a name that has begun; `tail` is empty or one slash.
tokens_from-join :
    (t : Bytes) (ts : List Bytes) → AreNames ts → tokens_from t (join ts) ≡ add_token t ts
unfolding tokens_from
tokens_from-join t [] h = refl
tokens_from-join t (u ∷ ts) h =
    ap (add_token t)
      (tokens_from-name [] u (join ts) h.0.0 ∙ tokens_from-join u ts h.1 ∙ add_token_lem u ts h.0.1)

-- Splitting a path that was joined from at most ten names gives the names back.
pub sep_path-join :
    (ts : List Bytes) → AreNames ts → length ts ≤ max_levels → sep_path (join ts) ≡ some ts
unfolding sep_path
sep_path-join ts h few = rw (tokens_from-join [] ts h) (ground arith)

-- `join` of all names but the last.
abbrev pub init : List Bytes → List Bytes
init [] = []
init (t ∷ []) = []
init (t ∷ u ∷ ts) = t ∷ init (u ∷ ts)

take-length : (t rest : Bytes) (n : ℕ) → take (length t + n) (t ++ rest) ≡ t ++ take n rest
take-length [] rest n = let e : 0 + n ≡ n = omega arith in rw e refl
take-length (c ∷ t) rest n =
    let e : suc (length t) + n ≡ suc (length t + n) = omega arith in
    rw e (ap (λ (x : Bytes). c ∷ x) (take-length t rest n))

take-par_len : (ts : List Bytes) → take (par_len ts) (join ts) ≡ join (init ts)
unfolding par_len
take-par_len [] = refl
take-par_len (t ∷ []) = refl
take-par_len (t ∷ u ∷ ts) =
    let e : length t + 1 + par_len (u ∷ ts) ≡ suc (length t + par_len (u ∷ ts)) = omega arith in
    rw e (
      ap (λ (x : Bytes). b'/' ∷ x)
        (take-length t (join (u ∷ ts)) (par_len (u ∷ ts))
          ∙ ap (λ (x : Bytes). t ++ x) (take-par_len (u ∷ ts))))

-- The parent's path, of a path with one slash before each name: the path of all names but the last,
-- and a slash.
pub par_path-join :
    (ts : List Bytes)
    → par_len ts + 1 < 300
    → par_path ts (join ts) ≡ some (join (init ts) ++ b'/' ∷ [])
unfolding par_path
par_path-join ts fits = rw take-par_len (ground arith)

-- A slash at the end of a path adds no name.
tokens_from-join_slash :
    (t : Bytes) (ts : List Bytes)
    → AreNames ts
    → tokens_from t (join ts ++ b'/' ∷ []) ≡ add_token t ts
unfolding tokens_from
tokens_from-join_slash t [] h = refl
tokens_from-join_slash t (u ∷ ts) h = ap (add_token t) (
    rw append_assoc (tokens_from-name [] u (join ts ++ b'/' ∷ []) h.0.0)
    ∙ tokens_from-join_slash u ts h.1
    ∙ add_token_lem u ts h.0.1)

init-AreNames : (ts : List Bytes) → AreNames ts → AreNames (init ts)
init-AreNames [] h = tt
init-AreNames (t ∷ []) h = tt
init-AreNames (t ∷ u ∷ ts) h = (h.0, init-AreNames (u ∷ ts) h.1)

length-init-le : (ts : List Bytes) → length (init ts) ≤ length ts
length-init-le [] = omega arith
length-init-le (t ∷ []) = omega arith
length-init-le (t ∷ u ∷ ts) = omega (arith, length-init-le (u ∷ ts))

then_walk_lem :
    (f g : ℕ → Option Ret) (r x : Option Ret) (j : ℕ)
    → ((k : ℕ) → f k ≡ some (found j) → g k ≡ x)
    → then_walk f r ≡ some (found j)
    → then_walk g r ≡ x
then_walk_lem f g none x j h e = absurd (ground arith)
then_walk_lem f g (some (missing err)) x j h e = absurd (ground arith)
then_walk_lem f g (some (found i)) x j h e = h i e

-- If the walk over some names leads to an inode, the walk over more names behind them goes on from
-- it.
pub walk-append :
    (d : Disk) (i : ℕ) (ts us : List Bytes) (j : ℕ)
    → walk d i ts ≡ some (found j)
    → walk d i (ts ++ us) ≡ walk d j us
unfolding walk
walk-append d i [] us j e = let p : i ≡ j = ground arith in rw p refl
walk-append d i (t ∷ ts) us j e =
    then_walk_lem (λ k. walk d k ts) (λ k. walk d k (ts ++ us)) (lookup_in d i t) (walk d j us) j
      (λ k. walk-append d k ts us j) e

absolute_slash : (us : List Bytes) → is_absolute (join us ++ b'/' ∷ []) ≡ true
absolute_slash [] = refl
absolute_slash (u ∷ us) = refl

sep_path-join_slash :
    (us : List Bytes)
    → AreNames us
    → length us ≤ max_levels
    → sep_path (join us ++ b'/' ∷ []) ≡ some us
unfolding sep_path
sep_path-join_slash us h few = rw (tokens_from-join_slash [] us h) (ground arith)

-- Of a path with one slash before each of at most ten names, `par_path` makes a path that
-- `path2inum` walks over all names but the last, from the root.
pub path2inum-par_path :
    (d : Disk) (ts : List Bytes)
    → AreNames ts
    → length ts ≤ max_levels
    → par_len ts + 1 < 300
    → (par : Bytes) × (par_path ts (join ts) ≡ some par)
      × (path2inum d par ≡ walk d root_inum (init ts))
unfolding path2inum
path2inum-par_path d ts h few fits =
    let short : length (init ts) ≤ max_levels = omega (arith, length-init-le ts) in
    (
      join (init ts) ++ b'/' ∷ [],
      par_path-join ts fits,
      rw (absolute_slash (init ts), sep_path-join_slash (init ts) (init-AreNames ts h) short) refl,
    )

-- `path2inum` of a path of names is `lookup_in` of its last name from where the parent's path
-- leads.
pub path2inum-lookup_in :
    (d : Disk) (ts : List Bytes) (t : Bytes) (j : ℕ)
    → AreNames (ts ++ t ∷ [])
    → length (ts ++ t ∷ []) ≤ max_levels
    → walk d root_inum ts ≡ some (found j)
    → path2inum d (join (ts ++ t ∷ [])) ≡ lookup_in d j t
unfolding path2inum walk
path2inum-lookup_in d ts t j names few e =
    rw (absolute_join ts t, sep_path-join (ts ++ t ∷ []) names few)
      (walk-append d root_inum ts (t ∷ []) j e ∙ end (lookup_in d j t))
  where
    end : (r : Option Ret) → then_walk (λ i. some (found i)) r ≡ r
    end none = refl
    end (some (missing err)) = refl
    end (some (found i)) = refl

    absolute_join : (us : List Bytes) (u : Bytes) → is_absolute (join (us ++ u ∷ [])) ≡ true
    absolute_join [] u = refl
    absolute_join (v ∷ us) u = refl

-- `path2inum` as a step on the disk.
pub path_inum_done :
    (d : Disk) (path : Bytes) (r : Ret) → path2inum d path ≡ some r → path_inum path d ≡ done r d
unfolding path_inum
path_inum_done d path r e = rw (e, path_inum) refl
