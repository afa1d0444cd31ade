-- ===== src/Usage/Totals.antt =====
-- usage.go: saturation, and the recorder's invariant.
use rho_llm.Base.{
  ◌≡◌, ℤ, pos, negsuc, ◌≤ℤ◌, ◌+ℤ◌, ◌-ℤ◌, leb_ℤ, if◌then◌else◌, arith, List, [], ◌∷◌, All,
}
use rho_llm.Clock.{max_int64}
use rho_llm.Usage.{
  saturating_add, ModalityUsage, sanitize_modality_usage, report_modality_usage, recorded,
}

-- An int that is no negative count.
abbrev pub IsCount : ℤ → Type 0
IsCount n = (pos 0 ≤ℤ n) × (n ≤ℤ pos max_int64)

abbrev pub IsInt : ℤ → Type 0
IsInt n = (negsuc 9223372036854775807 ≤ℤ n) × (n ≤ℤ pos max_int64)

-- The sum of two counts is their sum, or the largest int when it does not fit: it never wraps.
pub saturating_add_lem :
    (a b : ℤ)
    → IsCount a
    → IsCount b
    → saturating_add a b ≡ (if leb_ℤ (a +ℤ b) (pos max_int64) then a +ℤ b else pos max_int64)
unfolding saturating_add ◌+ℤ◌ ◌-ℤ◌
saturating_add_lem (pos a) (pos b) ha hb = ground arith
saturating_add_lem (negsuc a) b ha hb = ground arith
saturating_add_lem (pos a) (negsuc b) ha hb = ground arith

-- The sum as a count.
saturating_add-IsCount : (a b : ℤ) → IsCount a → IsCount b → IsCount (saturating_add a b)
unfolding ◌+ℤ◌
saturating_add-IsCount (pos a) (pos b) ha hb =
    rw (saturating_add_lem (pos a) (pos b) ha hb) (ground arith)
saturating_add-IsCount (negsuc a) b ha hb = ground arith
saturating_add-IsCount (pos a) (negsuc b) ha hb = ground arith

saturating_add_mono :
    (a b c d : ℤ)
    → IsCount a
    → IsCount b
    → IsCount c
    → IsCount d
    → a ≤ℤ c
    → b ≤ℤ d
    → saturating_add a b ≤ℤ saturating_add c d
unfolding ◌+ℤ◌
saturating_add_mono (pos a) (pos b) (pos c) (pos d) ha hb hc hd p q =
    rw (saturating_add_lem (pos a) (pos b) ha hb, saturating_add_lem (pos c) (pos d) hc hd)
      (ground arith)
saturating_add_mono (negsuc a) b c d ha hb hc hd p q = ground arith
saturating_add_mono (pos a) (negsuc b) c d ha hb hc hd p q = ground arith
saturating_add_mono (pos a) (pos b) (negsuc c) d ha hb hc hd p q = ground arith
saturating_add_mono (pos a) (pos b) (pos c) (negsuc d) ha hb hc hd p q = ground arith

-- Every field is a count, and the audio share is no more than the input.
abbrev pub IsUsage : ModalityUsage → Type 0
IsUsage u =
    IsCount u.input_tokens
    × IsCount u.output_tokens
    × IsCount u.audio_input_tokens
    × IsCount u.cache_read_tokens
    × (u.audio_input_tokens ≤ℤ u.input_tokens)

-- What a provider's payload may hold: any ints.
abbrev pub AreInts : ModalityUsage → Type 0
AreInts u =
    IsInt u.input_tokens
    × IsInt u.output_tokens
    × IsInt u.audio_input_tokens
    × IsInt u.cache_read_tokens

sanitize-IsUsage : (u : ModalityUsage) → AreInts u → IsUsage (sanitize_modality_usage u)
unfolding sanitize_modality_usage
sanitize-IsUsage u h = ground arith

report-IsUsage : (r u : ModalityUsage) → IsUsage r → AreInts u → IsUsage (report_modality_usage r u)
unfolding report_modality_usage
report-IsUsage r u (ri, ro, ra, rc, le) h =
    let (ui, uo, ua, uc, le') = sanitize-IsUsage u h in
    let v = sanitize_modality_usage u in
    (
      saturating_add-IsCount r.input_tokens v.input_tokens ri ui,
      saturating_add-IsCount r.output_tokens v.output_tokens ro uo,
      saturating_add-IsCount r.audio_input_tokens v.audio_input_tokens ra ua,
      saturating_add-IsCount r.cache_read_tokens v.cache_read_tokens rc uc,
      saturating_add_mono r.audio_input_tokens v.audio_input_tokens r.input_tokens v.input_tokens ra
          ua ri ui le le',
    )

-- Whatever ints the providers report, and however often: every count of the recorder stays
-- between 0 and the largest int, and the audio tokens never exceed the input tokens.
pub recorded-IsUsage :
    (recorder : ModalityUsage) (reports : List ModalityUsage)
    → IsUsage recorder
    → All AreInts reports
    → IsUsage (recorded recorder reports)
unfolding recorded
recorded-IsUsage recorder [] h hs = h
recorded-IsUsage recorder (u ∷ reports) h (hu, hs) =
    recorded-IsUsage (report_modality_usage recorder u) reports (report-IsUsage recorder u h hu) hs
