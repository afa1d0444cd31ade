-- ===== src/Network/Egress/Race.antt =====
-- egress.go: race, as steps. Connecting is up to the network: any attempt that runs may succeed or
-- fail at any time, and the timer may fire at any time.
use rho_llm.Base.{
  ℕ, zero, suc, ◌+◌, ◌*◌, ◌≤◌, ◌≡◌, ◌≢◌, refl, ap, Option, none, some, List, [], ◌∷◌, ◌++◌, length,
  length-append_cons, arith,
}
use rho_llm.Network.{Addr}

-- `todo` is what is not started yet, `running` what is pending, `lost` what has failed, `won` the
-- connection that is returned, and `closed` the connections that come later.
pub record Racing : Type 0 where
  pub todo : List Addr
  pub running : List Addr
  pub lost : List Addr
  pub won : Option Addr
  pub closed : List Addr

-- start().
unfoldable pub start : Racing → Racing
start r = elim r.todo [ [] ↦ r | a ∷ rest ↦ record r { todo = rest; running = a ∷ r.running } ]

-- Before the loop, with the order of the addresses.
abbrev pub begin : Addr → List Addr → Racing
begin a others =
    start (record { todo = a ∷ others; running = []; lost = []; won = none; closed = [] })

pub data Step : Racing → Racing → Type 0 where
  -- The timer fires while an attempt is pending, and there is another address.
  ticks :
      (r : Racing) (a : Addr) (rest : List Addr)
      → r.won ≡ none
      → r.running ≢ []
      → r.todo ≡ a ∷ rest
      → Step r (start r)
  -- An attempt fails before there is a winner: the next one starts, if there is one.
  fails :
      (r : Racing) (xs ys : List Addr) (a : Addr)
      → r.won ≡ none
      → r.running ≡ xs ++ (a ∷ ys)
      → Step r (start (record r { running = xs ++ ys; lost = a ∷ r.lost }))
  wins :
      (r : Racing) (xs ys : List Addr) (a : Addr)
      → r.won ≡ none
      → r.running ≡ xs ++ (a ∷ ys)
      → Step r (record r { running = xs ++ ys; won = some a })
  -- After the return: a late failure, and a late connection, which is closed.
  fails_late :
      (r : Racing) (xs ys : List Addr) (a w : Addr)
      → r.won ≡ some w
      → r.running ≡ xs ++ (a ∷ ys)
      → Step r (record r { running = xs ++ ys; lost = a ∷ r.lost })
  connects_late :
      (r : Racing) (xs ys : List Addr) (a w : Addr)
      → r.won ≡ some w
      → r.running ≡ xs ++ (a ∷ ys)
      → Step r (record r { running = xs ++ ys; closed = a ∷ r.closed })

-- So many steps from one state to another.
pub data Steps : ℕ → Racing → Racing → Type 0 where
  here : (r : Racing) → Steps zero r r
  then : (n : ℕ) (r s t : Racing) → Steps n r s → Step s t → Steps (suc n) r t

-- Counted by a weight for each address: equal weights of every kind mean the same addresses, each as
-- often.
abbrev pub total : (Addr → ℕ) → List Addr → ℕ
total f [] = 0
total f (a ∷ others) = f a + total f others

abbrev pub of_winner : (Addr → ℕ) → Option Addr → ℕ
of_winner f none = 0
of_winner f (some a) = f a

total-remove :
    (f : Addr → ℕ) (xs ys : List Addr) (a : Addr)
    → total f (xs ++ (a ∷ ys)) ≡ f a + total f (xs ++ ys)
total-remove f [] ys a = refl
total-remove f (x ∷ xs) ys a = omega (arith, total-remove f xs ys a)

-- Where the addresses are.
abbrev weight : (Addr → ℕ) → Racing → ℕ
weight f r =
    total f r.todo + (total f r.running + (total f r.lost + (of_winner f r.won + total f r.closed)))

weight-start : (f : Addr → ℕ) (r : Racing) → weight f (start r) ≡ weight f r
unfolding start
weight-start f r = ground arith

Step-weight : {r s : Racing} (f : Addr → ℕ) → Step r s → weight f s ≡ weight f r
Step-weight f (ticks r a rest w p t) = weight-start f r
Step-weight f (fails r xs ys a w p) = omega (
  arith,
  weight-start f (record r { running = xs ++ ys; lost = a ∷ r.lost }),
  total-remove f xs ys a,
  ap (total f) p,
)
Step-weight f (wins r xs ys a w p) =
    omega (arith, total-remove f xs ys a, ap (total f) p, ap (of_winner f) w)
Step-weight f (fails_late r xs ys a u w p) = omega (arith, total-remove f xs ys a, ap (total f) p)
Step-weight f (connects_late r xs ys a u w p) =
    omega (arith, total-remove f xs ys a, ap (total f) p)

-- While there is no winner nothing is closed, and an attempt is pending unless all were started.
record Live (r : Racing) : Type 0 where
  none_closed : r.won ≡ none → r.closed ≡ []
  all_started : r.won ≡ none → r.running ≡ [] → r.todo ≡ []

Live-start : (r : Racing) → (r.won ≡ none → r.closed ≡ []) → Live (start r)
unfolding start
Live-start r h = go r.todo refl
  where
    go :
        (todo : List Addr)
        → r.todo ≡ todo
        → Live (elim todo as (λ _. Racing) [
          | [] ↦ r
          | a ∷ rest ↦ record r { todo = rest; running = a ∷ r.running }
        ])
    go [] none_left = record { none_closed = h; all_started = λ w e. none_left }
    go (a ∷ rest) e' = record { none_closed = h; all_started = λ w e. cc }

Step-Live : {r s : Racing} → Step r s → Live r → Live s
Step-Live (ticks r a rest w p t) l = Live-start r l.none_closed
Step-Live (fails r xs ys a w p) l =
    Live-start (record r { running = xs ++ ys; lost = a ∷ r.lost }) l.none_closed
Step-Live (wins r xs ys a w p) l = record { none_closed = λ e. cc; all_started = λ e. cc }
Step-Live (fails_late r xs ys a u w p) l = record { none_closed = λ e. cc; all_started = λ e. cc }
Step-Live (connects_late r xs ys a u w p) l = record {
  none_closed = λ e. cc;
  all_started = λ e. cc;
}

-- The steps that may still come.
abbrev left : Racing → ℕ
left r = 2 * length r.todo + length r.running

left-start :
    (r : Racing) (a : Addr) (rest : List Addr) → r.todo ≡ a ∷ rest → suc (left (start r)) ≡ left r
unfolding start
left-start r a rest e = ground (arith, ap length e)

left-start_le : (r : Racing) → left (start r) ≤ left r
unfolding start
left-start_le r = ground arith

Step-left : {r s : Racing} → Step r s → suc (left s) ≤ left r
Step-left (ticks r a rest w p t) = omega (arith, left-start r a rest t)
Step-left (fails r xs ys a w p) = omega (
  arith,
  left-start_le (record r { running = xs ++ ys; lost = a ∷ r.lost }),
  length-append_cons xs ys a,
  ap length p,
)
Step-left (wins r xs ys a w p) = omega (arith, length-append_cons xs ys a, ap length p)
Step-left (fails_late r xs ys a u w p) = omega (arith, length-append_cons xs ys a, ap length p)
Step-left (connects_late r xs ys a u w p) = omega (arith, length-append_cons xs ys a, ap length p)

Steps-left : {n : ℕ} {r s : Racing} → Steps n r s → n + left s ≤ left r
Steps-left (here r) = omega arith
Steps-left (then n r s t ss st) = omega (arith, Steps-left ss, Step-left st)

Steps-weight : {n : ℕ} {r s : Racing} (f : Addr → ℕ) → Steps n r s → weight f s ≡ weight f r
Steps-weight f (here r) = refl
Steps-weight f (then n r s t ss st) = omega (arith, Steps-weight f ss, Step-weight f st)

Steps-Live : {n : ℕ} {r s : Racing} → Steps n r s → Live r → Live s
Steps-Live (here r) l = l
Steps-Live (then n r s t ss st) l = Step-Live st (Steps-Live ss l)

-- However connecting goes, a race is over after at most two steps for each address.
pub race-Steps :
    (a : Addr) (others : List Addr) (n : ℕ) (s : Racing)
    → Steps n (begin a others) s
    → n ≤ 2 * length others + 1
unfolding start
race-Steps a others n s ss = omega (arith, Steps-left ss)

-- No address is lost or tried twice: at any time each one is waiting, pending, failed, the winner or
-- a late connection that was closed. And when the race returns an error, with nothing pending and no
-- winner, every address has been tried and has failed.
pub race_accounts :
    (a : Addr) (others : List Addr) (n : ℕ) (s : Racing)
    → Steps n (begin a others) s
    → (f : Addr → ℕ)
    → (total f s.todo
          + (total f s.running + (total f s.lost + (of_winner f s.won + total f s.closed)))
        ≡ total f (a ∷ others))
      × (s.won ≡ none → s.running ≡ [] → total f s.lost ≡ total f (a ∷ others))
unfolding start
race_accounts a others n s ss f =
    let kept : weight f s ≡ total f (a ∷ others) = omega (arith, Steps-weight f ss) in
    let live : Live s = Steps-Live ss (
      Live-start (record { todo = a ∷ others; running = []; lost = []; won = none; closed = [] })
        (λ w. refl)) in
    (
      kept,
      λ w e. omega (
        arith,
        kept,
        ap (of_winner f) w,
        ap (total f) e,
        ap (total f) (live.all_started w e),
        ap (total f) (live.none_closed w),
      ),
    )
