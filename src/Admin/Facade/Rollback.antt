-- ===== src/Admin/Facade/Rollback.antt =====
-- What becomes of a row of requests, and what a failure brings back.
use kiosk_screen.Prelude.{
  ℕ, zero, suc, ◌<◌, ◌≡◌, refl, Option, List, [], ◌∷◌, arith, length, get_elem?-last,
  remove_at-last, replace_at-last,
}
use kiosk_screen.Admin.Catalog.{Listed}
use kiosk_screen.Admin.Errors.{ErrorBody}
use kiosk_screen.Admin.Facade.{
  Call, Recovery, sending, done, failed, Facade, launch, finish, send_all, recover, answer,
}

module _ {ℓ κ} {A : Type ℓ} {P : Type κ} ⦃l : Listed A⦄ where
  -- The server confirms k requests, one after the other, of the row at place i.
  abbrev pub confirm : ℕ → ℕ → Facade A P → Facade A P
  confirm i zero f = f
  confirm i (suc k) f = confirm i k (answer i done f)

  next_call :
      (r : Recovery A) (c d : Call P) (ds : List (Call P)) (g : Facade A P)
      → answer (length g.in_flight) done (launch (sending r c (d ∷ ds)) g)
        ≡ launch (sending r d ds) g
  unfolding answer
  next_call r c d ds g =
      rw
        (
          answer,
          get_elem?-last g.in_flight (sending r c (d ∷ ds)),
          replace_at-last g.in_flight (sending r c (d ∷ ds)) (sending r d ds),
        )
        refl

  last_call :
      (r : Recovery A) (c : Call P) (g : Facade A P)
      → answer (length g.in_flight) done (launch (sending r c []) g) ≡ finish g
  unfolding answer finish
  last_call r c g =
      rw
        (
          answer,
          get_elem?-last g.in_flight (sending r c []),
          remove_at-last g.in_flight (sending r c []),
        )
        refl

  failed_call :
      (r : Recovery A) (c : Call P) (cs : List (Call P)) (e : Option ErrorBody) (g : Facade A P)
      → answer (length g.in_flight) (failed e) (launch (sending r c cs) g) ≡ recover r e g
  unfolding answer recover
  failed_call r c cs e g =
      rw
        (
          answer,
          get_elem?-last g.in_flight (sending r c cs),
          remove_at-last g.in_flight (sending r c cs),
        )
        refl

  -- Once all requests of a row are confirmed, the change is done.
  pub row_confirmed :
      (r : Recovery A) (cs : List (Call P)) (g : Facade A P)
      → confirm (length g.in_flight) (length cs) (send_all r cs g) ≡ finish g
  row_confirmed r [] g = refl
  row_confirmed r (c ∷ []) g = last_call r c g
  row_confirmed r (c ∷ d ∷ ds) g = rw (confirm, next_call r c d ds g) (row_confirmed r (d ∷ ds) g)

  -- A row that fails at whichever of its requests recovers, and what was confirmed stays
  -- confirmed.
  pub row_failed :
      (r : Recovery A) (k : ℕ) (cs : List (Call P)) (e : Option ErrorBody) (g : Facade A P)
      → k < length cs
      → answer (length g.in_flight) (failed e) (confirm (length g.in_flight) k (send_all r cs g))
        ≡ recover r e g
  row_failed r k [] e g h = absurd (omega (arith, h))
  row_failed r zero (c ∷ cs) e g h = failed_call r c cs e g
  row_failed r (suc k) (c ∷ []) e g h = absurd (omega (arith, h))
  row_failed r (suc k) (c ∷ d ∷ ds) e g h =
      rw (confirm, next_call r c d ds g) (row_failed r k (d ∷ ds) e g (omega (arith, h)))
