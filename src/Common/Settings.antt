-- ===== src/Common/Settings.antt =====
-- Reading settings: an environment, and the parsers of the libraries that the configurations use. A
-- setting that cannot be parsed is refused with its name.
use Prim.Native.Nat.{ℕ, ◌*◌}
use Prim.Native.String.{String}
use mathlib.Core.Bool.{Bool}
use mathlib.Core.List.{List}
use mathlib.Core.Option.{Option, none, some}
use distributed_fs.Common.Tests.{◌==◌, if◌then◌else◌, leb, ltb}
use distributed_fs.Common.Int.{ℤ, pos, negsuc}

-- os.Getenv, where "" is not set, time.ParseDuration to nanoseconds, and strconv.
pub record Environment : Type 0 where
  pub getenv : String → String
  pub parse_duration : String → Option ℤ
  pub atoi : String → Option ℤ
  pub parse_uint : String → Option ℕ
  pub parse_bool : String → Option Bool
  pub split : String → List String

-- A configuration, or the name of the setting that is refused.
pub data Loaded (A : Type 0) : Type 0 where
  loaded : A → Loaded A
  refused_setting : String → Loaded A

infixl 5 ◌>>=◌
abbrev pub ◌>>=◌ : {A B : Type 0} → Loaded A → (A → Loaded B) → Loaded B
loaded a >>= f = f a
refused_setting k >>= f = refused_setting k

abbrev pub is_positive : ℤ → Bool
is_positive (pos n) = if leb n 0 then Bool.false else Bool.true
is_positive (negsuc n) = Bool.false

abbrev pub lt_int : ℤ → ℤ → Bool
lt_int (pos a) (pos b) = ltb a b
lt_int (pos a) (negsuc b) = Bool.false
lt_int (negsuc a) (pos b) = Bool.true
lt_int (negsuc a) (negsuc b) = ltb b a

-- 1000000 nanoseconds each.
abbrev pub milliseconds : ℕ → ℤ
milliseconds n = pos (n * 1000000)

-- The default of a text, and of a number that must be positive.
abbrev pub or_text : String → String → String
or_text s d = if s == "" then d else s

abbrev pub or_positive : ℤ → ℤ → ℤ
or_positive n d = if is_positive n then n else d

-- A setting that is a text, and one that is parsed.
abbrev pub set_text : {C : Type 0} → Environment → String → (String → C → C) → C → C
set_text e key set c = let v = e.getenv key in if v == "" then c else set v c

abbrev pub set_parsed :
    {C A : Type 0} → Environment → String → (String → Option A) → (A → C → C) → C → Loaded C
set_parsed e key parse set c =
    let v = e.getenv key in
    if v == ""
    then loaded c
    else elim (parse v) [ none ↦ refused_setting key | some a ↦ loaded (set a c) ]

-- The same of a value of a JSON object, which may be absent.
abbrev pub take_value : {C A : Type 0} → Option A → (A → C → C) → C → C
take_value none set c = c
take_value (some a) set c = set a c

abbrev pub take_parsed :
    {C A : Type 0} → String → (String → Option A) → Option String → (A → C → C) → C → Loaded C
take_parsed key parse none set c = loaded c
take_parsed key parse (some v) set c = elim (parse v) [
  | none ↦ refused_setting key
  | some a ↦ loaded (set a c)
]

-- A setting of the environment that keeps its value when it cannot be parsed.
abbrev pub try_parsed :
    {C A : Type 0} → Environment → String → (String → Option A) → (A → C → C) → C → C
try_parsed e key parse set c =
    let v = e.getenv key in if v == "" then c else elim (parse v) [ none ↦ c | some a ↦ set a c ]
