-- ===== src/Shell/Exec/Fds/Redirection.antt =====
-- What a redirection leaves of a standard descriptor (lab2/cmdrun.c, cmd_exec).
use neu_cs5600_cmpsys.Base.{
  ℕ, ◌≡◌, ◌≢◌, ◌≤◌, refl, ◌⊎◌, inl, inr, [], ◌∷◌, Option, none, some, Option-cases,
}
use neu_cs5600_cmpsys.Base.Bytes.{Bytes}
use neu_cs5600_cmpsys.Shell.Exec.Fds.{
  Flags, o_rdonly, o_creat, File, opened, Fds, put, close, dup2, IsOpen, redirect,
}
use neu_cs5600_cmpsys.Shell.Exec.Fds.Tables.{
  Table, put_same, new_is_high, Table-put, Table-close, dup2-input, dup2-output, dup2-error,
}

-- The file can be opened by a process that has its standard descriptors alone.
abbrev pub CanOpen : (Fds → Flags → Bytes → Option ℕ) → Flags → Bytes → Type 0
CanOpen opens flags name =
    (fds : Fds) (i o e : File) → Table fds i o e [] → opens fds flags name ≢ none

-- What a redirection leaves of a descriptor: the file, or what was there when it cannot be opened.
abbrev pub Gets : (Fds → Flags → Bytes → Option ℕ) → Flags → Option Bytes → File → File → Type 0
Gets opens flags none old new = new ≡ old
Gets opens flags (some name) old new =
    (new ≡ opened flags name) ⊎ ((new ≡ old) × ¬ CanOpen opens flags name)

module _ (opens : Fds → Flags → Bytes → Option ℕ) (law : IsOpen opens) where
  -- The descriptor that was opened, above the three, is closed again.
  close_opened :
      (fds : Fds) (i o e : File) (d : ℕ)
      → 3 ≤ d
      → Table fds i o e (d ∷ [])
      → Table (close fds d) i o e []
  close_opened fds i o e d h t = Table-close fds i o e d (d ∷ []) [] h t (λ a n m. (n, tt))

  pub redirect_input :
      (fds : Fds) (i o e : File) (name : Option Bytes)
      → Table fds i o e []
      → (f : File) × Table (redirect opens fds 0 o_rdonly name) f o e []
        × Gets opens o_rdonly name i f
  redirect_input fds i o e none t = (i, t, refl)
  redirect_input fds i o e (some name) t = elim (Option-cases (opens fds o_rdonly name)) [
    | inl fails ↦ (i, rw (fails, redirect) t, inr (refl, λ can. can fds i o e t fails))
    | inr (d, q) ↦
        let f = opened o_rdonly name in
        let h = new_is_high fds i o e [] t d (law fds o_rdonly name d q) in
        let g = put fds d (some f) in
        (
          f,
          rw (q, redirect)
              (close_opened (dup2 g d 0) f o e d h (
                dup2-input g i o e (d ∷ []) (Table-put fds i o e [] t d (some f) h) d f
                  (put_same fds d (some f)))),
          inl refl,
        )
  ]

  pub redirect_output :
      (fds : Fds) (i o e : File) (name : Option Bytes)
      → Table fds i o e []
      → (f : File) × Table (redirect opens fds 1 o_creat name) i f e []
        × Gets opens o_creat name o f
  redirect_output fds i o e none t = (o, t, refl)
  redirect_output fds i o e (some name) t = elim (Option-cases (opens fds o_creat name)) [
    | inl fails ↦ (o, rw (fails, redirect) t, inr (refl, λ can. can fds i o e t fails))
    | inr (d, q) ↦
        let f = opened o_creat name in
        let h = new_is_high fds i o e [] t d (law fds o_creat name d q) in
        let g = put fds d (some f) in
        (
          f,
          rw (q, redirect)
              (close_opened (dup2 g d 1) i f e d h (
                dup2-output g i o e (d ∷ []) (Table-put fds i o e [] t d (some f) h) d f
                  (put_same fds d (some f)))),
          inl refl,
        )
  ]

  pub redirect_error :
      (fds : Fds) (i o e : File) (name : Option Bytes)
      → Table fds i o e []
      → (f : File) × Table (redirect opens fds 2 o_creat name) i o f []
        × Gets opens o_creat name e f
  redirect_error fds i o e none t = (e, t, refl)
  redirect_error fds i o e (some name) t = elim (Option-cases (opens fds o_creat name)) [
    | inl fails ↦ (e, rw (fails, redirect) t, inr (refl, λ can. can fds i o e t fails))
    | inr (d, q) ↦
        let f = opened o_creat name in
        let h = new_is_high fds i o e [] t d (law fds o_creat name d q) in
        let g = put fds d (some f) in
        (
          f,
          rw (q, redirect)
              (close_opened (dup2 g d 2) i o f d h (
                dup2-error g i o e (d ∷ []) (Table-put fds i o e [] t d (some f) h) d f
                  (put_same fds d (some f)))),
          inl refl,
        )
  ]
