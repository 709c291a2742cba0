-- ===== src/Engine/Laws.antt =====
-- The flags of a modulation link, the routes of a track, and the loop.
use unidaw.Base.{
  ℕ, ◌+◌, ◌*◌, ◌/◌, ◌%◌, ◌≤◌, ◌<◌, ◌^◌, ◌≡◌, refl, Bool, true, false, ◌||◌, some, inl, inr, ltb,
  leb, ◌==◌, if◌then◌else◌, Bool-cases, arith, ◌⊎◌,
}
use unidaw.Payload.Commands.{UiCommandPayload}
use unidaw.Modulation.{ModRate, ModSourceKind, ModTargetKind, ModLink}
use unidaw.Engine.{Engine}
use unidaw.Engine.ModFlags.{
  decode_source_kind, decode_target_kind, decode_rate, decode_enabled, encode_flags, source_code,
  target_code, rate_code, source_kind, target_kind, rate_kind,
}
use unidaw.Engine.Commands.{join, set_loop_range}

sources_back : (k : ModSourceKind) (n : ℕ) → n ≡ source_code k → source_kind n ≡ some k
sources_back ModSourceKind.macro n h = rw h refl
sources_back ModSourceKind.lfo n h = rw h refl
sources_back ModSourceKind.envelope n h = rw h refl
sources_back ModSourceKind.patcher_node_output n h = rw h refl

targets_back : (k : ModTargetKind) (n : ℕ) → n ≡ target_code k → target_kind n ≡ some k
targets_back ModTargetKind.vst_param n h = rw h refl
targets_back ModTargetKind.patcher_param n h = rw h refl
targets_back ModTargetKind.patcher_macro n h = rw h refl

rates_back : (k : ModRate) (n : ℕ) → n ≡ rate_code k → rate_kind n ≡ some k
rates_back ModRate.block_rate n h = rw h refl
rates_back ModRate.sample_rate n h = rw h refl

source_code-le : (k : ModSourceKind) → source_code k ≤ 3
source_code-le ModSourceKind.macro = omega arith
source_code-le ModSourceKind.lfo = omega arith
source_code-le ModSourceKind.envelope = omega arith
source_code-le ModSourceKind.patcher_node_output = omega arith

target_code-le : (k : ModTargetKind) → target_code k ≤ 2
target_code-le ModTargetKind.vst_param = omega arith
target_code-le ModTargetKind.patcher_param = omega arith
target_code-le ModTargetKind.patcher_macro = omega arith

rate_code-le : (k : ModRate) → rate_code k ≤ 1
rate_code-le ModRate.block_rate = omega arith
rate_code-le ModRate.sample_rate = omega arith

-- The fields of a sum of shifted fields, with the switch on or off.
fields :
    (s t r w n : ℕ)
    → s ≤ 3
    → t ≤ 2
    → r ≤ 1
    → w ≤ 1
    → n ≡ s + t * 16 + r * 256 + w * 1024
    → (n % 16 ≡ s) × (n / 16 % 16 ≡ t) × (n / 256 % 4 ≡ r) × (n / 1024 % 2 ≡ w) × (n < 2 ^ 16)
fields s t r w n hs ht hr hw h = (omega arith, omega arith, omega arith, omega arith, omega arith)

bit : Bool → ℕ
bit b = if b then 1 else 0

bit-le : (b : Bool) → bit b ≤ 1
unfolding bit
bit-le b = ground arith

bit-switch : (b : Bool) → (if b then 1024 else 0) ≡ bit b * 1024
unfolding bit
bit-switch b = ground arith

enabled_back : (b : Bool) (n : ℕ) → n ≡ bit b → (n == 1) ≡ b
unfolding bit
enabled_back true n h = rw h refl
enabled_back false n h = rw h refl

-- The flags that describe a link to the UI decode to its kinds, its rate and its switch: what
-- emitModSnapshot writes, AddModLink reads back.
pub decode-encode :
    (l : ModLink)
    → (decode_source_kind (encode_flags l) ≡ some l.source.kind)
      × (decode_target_kind (encode_flags l) ≡ some l.target.kind)
      × (decode_rate (encode_flags l) ≡ some l.rate)
      × (decode_enabled (encode_flags l) ≡ l.enabled)
      × (encode_flags l < 2 ^ 16)
unfolding decode_source_kind decode_target_kind decode_rate decode_enabled encode_flags
decode-encode l = (
  sources_back l.source.kind _ parts.0,
  targets_back l.target.kind _ parts.1,
  rates_back l.rate _ parts.2,
  enabled_back l.enabled _ parts.3,
  parts.4,
)
  where
    parts :
        let n = encode_flags l in
        (n % 16 ≡ source_code l.source.kind)
        × (n / 16 % 16 ≡ target_code l.target.kind)
        × (n / 256 % 4 ≡ rate_code l.rate)
        × (n / 1024 % 2 ≡ bit l.enabled)
        × (n < 2 ^ 16)
    parts =
        fields (source_code l.source.kind) (target_code l.target.kind) (rate_code l.rate)
          (bit l.enabled) (encode_flags l) (source_code-le l.source.kind)
          (target_code-le l.target.kind) (rate_code-le l.rate) (bit-le l.enabled)
          (omega (arith, bit-switch l.enabled))

-- A position inside of the loop, which stays, or outside, which goes to the loop's start.
abbrev pub Rewound : (start end before after : ℕ) → Type 0
Rewound start end before after =
    ((start ≤ before) × (before < end) × (after ≡ before))
    ⊎ (((before < start) ⊎ (end ≤ before)) × (after ≡ start))

rewound : (a b t : ℕ) → Rewound a b t (if ltb t a || leb b t then a else t)
rewound a b t = elim (Bool-cases (ltb t a)) [
  | inl low ↦ rw low (inr (inl (ground arith), refl))
  | inr up ↦ elim (Bool-cases (leb b t)) [
    | inl high ↦ rw (up, high) (inr (inr (ground arith), refl))
    | inr short ↦ rw (up, short) (inl (ground arith, ground arith, refl))
  ]
]

-- SetLoopRange with an end after its start sets the loop, and leaves the transport inside it: where
-- it was, if that is inside the loop, and else at the start.
pub set_loop_range_lem :
    (p : UiCommandPayload) (e : Engine)
    → join p.note_nanotick_lo p.note_nanotick_hi < join p.note_duration_lo p.note_duration_hi
    → let start = join p.note_nanotick_lo p.note_nanotick_hi in
      let end = join p.note_duration_lo p.note_duration_hi in
      let out = set_loop_range p e in
      (out.loop_start_nanotick ≡ start)
      × (out.loop_end_nanotick ≡ end)
      × (start ≤ out.transport_nanotick)
      × (out.transport_nanotick < end)
      × Rewound start end e.transport_nanotick out.transport_nanotick
unfolding set_loop_range
set_loop_range_lem p e h =
    let start = join p.note_nanotick_lo p.note_nanotick_hi in
    let end = join p.note_duration_lo p.note_duration_hi in
    rw (before start end h, set_loop_range)
      (
        refl,
        refl,
        within start end e.transport_nanotick h,
        below start end e.transport_nanotick h,
        rewound start end e.transport_nanotick,
      )
  where
    before : (a b : ℕ) → a < b → ltb a b ≡ true
    before a b h = ground arith

    within : (a b t : ℕ) → a < b → a ≤ (if ltb t a || leb b t then a else t)
    within a b t h = ground arith

    below : (a b t : ℕ) → a < b → (if ltb t a || leb b t then a else t) < b
    below a b t h = ground arith
