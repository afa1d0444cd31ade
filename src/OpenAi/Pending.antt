-- ===== src/OpenAi/Pending.antt =====
-- provider/openaicompat/openaicompat.go: pendingBytes, and which calls the indexes stand for.
pub mod Deltas
use rho_llm.Base.{
  ◌∙◌, ℕ, zero, suc, ◌+◌, ◌-◌, ◌≡◌, ◌≢◌, ◌≤◌, ◌<◌, refl, ap, sym, Text, Bool, true, false, not,
  Option, none, some, List, [], ◌∷◌, ◌++◌, arith, ℤ, Bool-cases, inl, inr, length, get_elem?, set,
  All, All-append, get_elem?-set_self, get_elem?-set_ne, length-append, if◌then◌else◌, subst,
}
use rho_llm.Anthropic.{int_eq}
use rho_llm.OpenAi.{
  ToolDelta, ChatEmit, content, thinking, tool_use, done, error_item, StreamingCall, Assembling,
  assembling, no_index, give_call, emit_call, give_all, emit_all, new_call, start_call, point_index,
  start_at, find_indexed, find_call, filled, continue_at, continue_call, add_delta, add_deltas,
  Found, reuses,
}

-- The length of the tool input that an item carries.
abbrev pub input_size : ChatEmit → ℕ
input_size (tool_use id name input) = length input
input_size (done reason raw input output cached) = 0
input_size (content t) = 0
input_size (thinking t) = 0
input_size (error_item e) = 0

abbrev pub Fits : ℕ → ChatEmit → Type 0
Fits limit e = input_size e ≤ limit

-- The arguments that a call still holds, and those of all calls.
unfoldable pub held : StreamingCall → ℕ
held c = if c.emitted then 0 else length c.args

unfoldable pub all_held : List StreamingCall → ℕ
all_held [] = 0
all_held (c ∷ cs) = held c + all_held cs

abbrev not_emitted : Option StreamingCall → Bool
not_emitted none = false
not_emitted (some c) = not c.emitted

-- There is a call at the position, and it has not been emitted.
unfoldable pub Pending : List StreamingCall → ℕ → Type 0
Pending cs k = not_emitted (get_elem? cs k) ≡ true

pub Pending-lt : (cs : List StreamingCall) (k : ℕ) → Pending cs k → k < length cs
unfolding Pending
Pending-lt [] k h = cc
Pending-lt (c ∷ cs) zero h = omega arith
Pending-lt (c ∷ cs) (suc k) h = omega (arith, Pending-lt cs k h)

pub Pending-append : (cs ds : List StreamingCall) (k : ℕ) → Pending cs k → Pending (cs ++ ds) k
unfolding Pending
Pending-append [] ds k h = cc
Pending-append (c ∷ cs) ds zero h = h
Pending-append (c ∷ cs) ds (suc k) h = Pending-append cs ds k h

pub Pending-new :
    (cs : List StreamingCall) (tc : ToolDelta) → Pending (cs ++ (new_call tc ∷ [])) (length cs)
unfolding Pending
Pending-new [] tc = refl
Pending-new (c ∷ cs) tc = Pending-new cs tc

pub Pending-set_ne :
    (cs : List StreamingCall) (j k : ℕ) (c : StreamingCall)
    → j ≢ k
    → Pending cs k
    → Pending (set cs j c) k
unfolding Pending
Pending-set_ne cs j k c n h = rw (get_elem?-set_ne cs {i = j} {j = k} c n) h

pub Pending-set :
    (cs : List StreamingCall) (j k : ℕ) (c : StreamingCall)
    → c.emitted ≡ false
    → Pending cs k
    → Pending (set cs j c) k
unfolding Pending
Pending-set [] j k c n h = h
Pending-set (x ∷ cs) zero zero c n h = rw n refl
Pending-set (x ∷ cs) zero (suc k) c n h = h
Pending-set (x ∷ cs) (suc j) zero c n h = h
Pending-set (x ∷ cs) (suc j) (suc k) c n h = Pending-set cs j k c n h

pub all_held-append :
    (cs : List StreamingCall) (tc : ToolDelta) → all_held (cs ++ (new_call tc ∷ [])) ≡ all_held cs
unfolding all_held held
all_held-append [] tc = refl
all_held-append (c ∷ cs) tc = omega (arith, all_held-append cs tc)

pub all_held-set :
    (cs : List StreamingCall) (k : ℕ) (c d : StreamingCall)
    → get_elem? cs k ≡ some c
    → all_held (set cs k d) + held c ≡ all_held cs + held d
unfolding all_held
all_held-set [] k c d h = cc
all_held-set (x ∷ cs) zero c d h = ground arith
all_held-set (x ∷ cs) (suc k) c d h = omega (arith, all_held-set cs k c d h)

-- pendingBytes is what the calls hold, and the indexes stand for calls of their own.
pub record Filed (limit : ℕ) (a : Assembling) : Type 0 where
  pub counted : all_held a.calls ≡ a.pending_bytes
  pub within : a.pending_bytes ≤ limit
  pub indexed : (i : ℤ) (k : ℕ) → a.by_index i ≡ some k → Pending a.calls k
  pub distinct :
      (i j : ℤ) (k : ℕ) → a.by_index i ≡ some k → a.by_index j ≡ some k → int_eq i j ≡ true

unfoldable pub PendingOption : List StreamingCall → Option ℕ → Type 0
PendingOption cs none = Unit
PendingOption cs (some k) = Pending cs k

pub record Kept (limit : ℕ) (a : Assembling) : Type 0 where
  pub filed : Filed limit a
  pub followed : PendingOption a.calls a.latest

-- The invariant after a delta has found its call: it stands to be continued.
pub record FoundKept (limit : ℕ) (f : Found) : Type 0 where
  pub fits : All (Fits limit) f.0
  pub filed : Filed limit f.1
  pub followed : PendingOption f.1.calls f.2
  pub idle : f.2 ≡ none → f.1.latest ≡ none

module _ (limit : ℕ) where
  -- Emitting every call yields what fits, and leaves no pending bytes.
  pub record Given (r : List ChatEmit × Assembling) : Type 0 where
    pub fits : All (Fits limit) r.0
    pub empty : r.1.pending_bytes ≡ 0

  pub give_call-Fits :
      (c : StreamingCall) (a : Assembling)
      → held c ≤ a.pending_bytes
      → a.pending_bytes ≤ limit
      → All (Fits limit) (give_call c a).0
  unfolding give_call held
  give_call-Fits c a h w = ground arith

  pub give_call-counts :
      (c : StreamingCall) (a : Assembling)
      → (give_call c a).1.pending_bytes ≡ a.pending_bytes - held c
  unfolding give_call held
  give_call-counts c a = ground arith

  pub give_all-Given :
      (cs : List StreamingCall) (a : Assembling)
      → all_held cs ≡ a.pending_bytes
      → a.pending_bytes ≤ limit
      → Given (give_all cs a)
  unfolding give_all all_held
  give_all-Given [] a h w = record { fits = tt; empty = sym h }
  give_all-Given (c ∷ cs) a h w =
      let counts = give_call-counts c a in
      let rest = give_all-Given cs (give_call c a).1 (omega arith) (omega arith) in
      record {
        fits =
            All-append (Fits limit) (give_call c a).0 _ (give_call-Fits c a (omega arith) w)
              rest.fits;
        empty = rest.empty;
      }

  abbrev EmitKept : List ChatEmit × Assembling → Type 0
  EmitKept r = All (Fits limit) r.0 × Filed limit r.1

  pub emit_all-Kept :
      (a : Assembling) → Filed limit a → All (Fits limit) (emit_all a).0 × Kept limit (emit_all a).1
  unfolding emit_all all_held PendingOption
  emit_all-Kept a h =
      let given = give_all-Given a.calls a h.counted h.within in
      (
        given.fits,
        record {
          filed = record {
            counted = sym given.empty;
            within = rw given.empty (omega arith);
            indexed = λ i k e. cc;
            distinct = λ i j k e f. cc;
          };
          followed = tt;
        },
      )

  pub start_call-Filed :
      (tc : ToolDelta) (a : Assembling) → Filed limit a → Filed limit (start_call tc a)
  start_call-Filed tc a h = record {
    counted = all_held-append a.calls tc ∙ h.counted;
    within = h.within;
    indexed = λ i k e. Pending-append a.calls (new_call tc ∷ []) k (h.indexed i k e);
    distinct = h.distinct;
  }
