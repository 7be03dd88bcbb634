-- ===== src/Shell/Exec/Fds/Parent.antt =====
-- What the shell keeps of a pipe, after the fork or when the fork fails (lab2/cmdrun.c, cmd_exec).
use neu_cs5600_cmpsys.Base.{
  ℕ, ◌≡◌, refl, sym, ◌∙◌, true, false, [], ◌∷◌, Option, none, some, arith, ◌==◌,
}
use neu_cs5600_cmpsys.Shell.Exec.Fds.{
  File, pipe_read, pipe_write, Fds, put, close, Made, no_pipe, made, with_pipe, parent_fds,
}
use neu_cs5600_cmpsys.Shell.Exec.Fds.Tables.{
  Between, put_same, put_other, used_ne, new_is_high, Table-close,
}
use neu_cs5600_cmpsys.Shell.Exec.Fds.Wiring.{IsMade, read_end, with_pipe-Table}

pub parent_fds-Between :
    (n : ℕ) (fds : Fds) (pass : ℕ) (k : Option File) (m : Made) (i o e : File)
    → Between fds pass k i o e
    → IsMade fds m
    → Between
        (parent_fds (with_pipe n fds m) pass m).fds
        (parent_fds (with_pipe n fds m) pass m).pass
        (read_end n m)
        i
        o
        e
unfolding parent_fds
parent_fds-Between n fds pass none no_pipe i o e b m =
    let zero_pass : (pass == 0) ≡ true = ground (arith, b.0) in (refl, rw zero_pass b.1)
parent_fds-Between n fds pass (some f) no_pipe i o e b m =
    let high : (pass == 0) ≡ false = ground (arith, b.0) in
    (refl, rw high (Table-close fds i o e pass (pass ∷ []) [] b.0 b.2 (λ a n' m'. (n', tt))))
parent_fds-Between n fds pass none (made r w) i o e b m =
    let hr = new_is_high fds i o e [] b.1 r m.0 in
    let hw = new_is_high fds i o e [] b.1 w m.1 in
    let f₀ = with_pipe n fds (made r w) in
    let t = with_pipe-Table n fds i o e [] r w hr hw b.1 in
    let zero_pass : (pass == 0) ≡ true = ground (arith, b.0) in
    rw zero_pass (
      hr,
      put_other f₀ w r none m.2
          ∙ put_other (put fds r (some (pipe_read n))) w r (some (pipe_write n)) m.2
          ∙ put_same fds r (some (pipe_read n)),
      Table-close f₀ i o e w (w ∷ r ∷ []) (r ∷ []) hw t (λ a n' m'. (n', m')),
    )
parent_fds-Between n fds pass (some f) (made r w) i o e b m =
    let hr = new_is_high fds i o e (pass ∷ []) b.2 r m.0 in
    let hw = new_is_high fds i o e (pass ∷ []) b.2 w m.1 in
    let f₀ = with_pipe n fds (made r w) in
    let t = with_pipe-Table n fds i o e (pass ∷ []) r w hr hw b.2 in
    let high : (pass == 0) ≡ false = ground (arith, b.0) in
    let pr = used_ne fds pass r f b.1 m.0 in
    let t₁ =
      Table-close f₀ i o e pass (w ∷ r ∷ pass ∷ []) (w ∷ r ∷ []) b.0 t
        (λ a n' m'. (m'.0, (m'.1.0, (n', tt)))) in
    rw high (
      hr,
      put_other (close f₀ pass) w r none m.2
          ∙ put_other f₀ pass r none (λ q. pr (sym q))
          ∙ put_other (put fds r (some (pipe_read n))) w r (some (pipe_write n)) m.2
          ∙ put_same fds r (some (pipe_read n)),
      Table-close (close f₀ pass) i o e w (w ∷ r ∷ []) (r ∷ []) hw t₁ (λ a n' m'. (n', m')),
    )

-- When the fork fails the pipe is closed again.
pub unmade-Between :
    (n : ℕ) (fds : Fds) (pass : ℕ) (k : Option File) (r w : ℕ) (i o e : File)
    → Between fds pass k i o e
    → IsMade fds (made r w)
    → Between (close (close (with_pipe n fds (made r w)) r) w) pass k i o e
unmade-Between n fds pass none r w i o e b m =
    let hr = new_is_high fds i o e [] b.1 r m.0 in
    let hw = new_is_high fds i o e [] b.1 w m.1 in
    let f₀ = with_pipe n fds (made r w) in
    let t = with_pipe-Table n fds i o e [] r w hr hw b.1 in
    let t₁ = Table-close f₀ i o e r (w ∷ r ∷ []) (w ∷ []) hr t (λ a n' m'. (m'.0, (n', tt))) in
    (b.0, Table-close (close f₀ r) i o e w (w ∷ []) [] hw t₁ (λ a n' m'. (n', tt)))
unmade-Between n fds pass (some f) r w i o e b m =
    let hr = new_is_high fds i o e (pass ∷ []) b.2 r m.0 in
    let hw = new_is_high fds i o e (pass ∷ []) b.2 w m.1 in
    let f₀ = with_pipe n fds (made r w) in
    let t = with_pipe-Table n fds i o e (pass ∷ []) r w hr hw b.2 in
    let pr = used_ne fds pass r f b.1 m.0 in
    let pw = used_ne fds pass w f b.1 m.1 in
    let t₁ =
      Table-close f₀ i o e r (w ∷ r ∷ pass ∷ []) (w ∷ pass ∷ []) hr t
        (λ a n' m'. (m'.0, (n', m'.1))) in
    (
      b.0,
      put_other (close f₀ r) w pass none pw
          ∙ put_other f₀ r pass none pr
          ∙ put_other (put fds r (some (pipe_read n))) w pass (some (pipe_write n)) pw
          ∙ put_other fds r pass (some (pipe_read n)) pr
          ∙ b.1,
      Table-close (close f₀ r) i o e w (w ∷ pass ∷ []) (pass ∷ []) hw t₁ (λ a n' m'. (n', m')),
    )
