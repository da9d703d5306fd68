-- ===== src/Execution/DateUtils.antt =====
-- The names of indices by time: packages/teraslice/lib/utils/date_utils.js. `iso` gives the text of a time,
-- as toISOString does.
use teraslice.Base.{ℕ, zero, suc, Option, none, some, if◌then◌else◌, ◌===◌}
use Prim.Native.String.{String, [], ◌∷◌, ◌++◌}

-- `formatter[timeseriesFormat]`; another format has no length, and the date is not cut.
abbrev pub formatter : String → Option ℕ
formatter format =
    if format === "daily"
    then some 10
    else if format === "monthly"
    then some 7
    else if format === "yearly"
    then some 4
    else none

-- `dateString.slice(0, n)`
abbrev pub first_chars : ℕ → String → String
first_chars zero s = []
first_chars (suc n) [] = []
first_chars (suc n) (c ∷ s) = c ∷ first_chars n s

abbrev pub cut : Option ℕ → String → String
cut none s = s
cut (some n) s = first_chars n s

-- `replace(/-/g, '.')`
abbrev pub dotted : String → String
dotted [] = []
dotted (c ∷ s) = if (c ∷ []) === "-" then "." ++ dotted s else c ∷ dotted s

-- `dateStr || timestamp`
abbrev pub date_of : ℕ → Option ℕ → ℕ
date_of now none = now
date_of now (some t) = t

unfoldable pub timeseries_index : (ℕ → String) → String → String → ℕ → Option ℕ → String
timeseries_index iso format index now date =
    index ++ "-" ++ dotted (cut (formatter format) (iso (date_of now date)))
