-- ===== src/Settings/Rooted.antt =====
-- main.cpp, `ParserArguments`: the two addresses for the playlist mode.
use cdn_uring.Prelude.{◌==◌, ◌≡◌, refl, Bool, true, false, List, [], ◌∷◌, if◌then◌else◌, arith}
use cdn_uring.Prelude.Text.{Text, codes, text_eq}
use cdn_uring.Prelude.Text.Lines.{stoi_signed}
use cdn_uring.Prelude.Result.{Result, ok}
use cdn_uring.Prelude.Holds.{Holds, Holds-after, Holds-bind, Holds-if}
use cdn_uring.Settings.{
  Settings, has_prefix, value_of, rooted, set_flag, set_number, set_text, parse_argument,
  parser_arguments,
}

-- Empty, or with a slash in front.
abbrev pub IsRooted : Text → Type 0
IsRooted [] = Unit
IsRooted (c ∷ s) = c ≡ 47

abbrev pub AreRooted : Settings → Type 0
AreRooted s = IsRooted s.proxy × IsRooted s.base_url

rooted-IsRooted : (t : Text) → Holds IsRooted (rooted t)
unfolding rooted
rooted-IsRooted [] = tt
rooted-IsRooted (c ∷ s) =
    Holds-if IsRooted (c == b'/') (ok (c ∷ s)) (ok (b'/' ∷ c ∷ s)) (λ slash. ground arith)
      (λ _. refl)

set_flag-AreRooted : (arg : Text) (s : Settings) → AreRooted s → AreRooted (set_flag arg s)
unfolding set_flag
set_flag-AreRooted arg s h = by (text_eq arg (codes "-debug")) _ _ h (
    by (text_eq arg (codes "-silent")) _ _ h (
      by (text_eq arg (codes "-ssl")) _ _ h (
        by (text_eq arg (codes "-no-cache")) _ _ h
          (by (text_eq arg (codes "-hls")) _ _ h (by (text_eq arg (codes "-astra")) _ _ h h)))))
  where
    by : (b : Bool) (s t : Settings) → AreRooted s → AreRooted t → AreRooted (if b then s else t)
    by true s t hs ht = hs
    by false s t hs ht = ht

set_number-AreRooted :
    (arg : Text) (s : Settings) (otherwise : Result Settings)
    → AreRooted s
    → Holds AreRooted otherwise
    → Holds AreRooted (set_number arg s otherwise)
unfolding set_number
set_number-AreRooted arg s otherwise h k =
    Holds-if AreRooted (has_prefix (codes "-buffer-size=") arg) _ _
      (λ _. Holds-after AreRooted (stoi_signed (value_of (codes "-buffer-size=") arg)) _ λ n. h)
      λ _.
        Holds-if AreRooted (has_prefix (codes "-server-port=") arg) _ _
          (λ _. Holds-after AreRooted (stoi_signed (value_of (codes "-server-port=") arg)) _ λ n. h)
          λ _.
            Holds-if AreRooted (has_prefix (codes "-dns-port=") arg) _ _
              (λ _.
                Holds-after AreRooted (stoi_signed (value_of (codes "-dns-port=") arg)) _ λ n. h)
              λ _. k

set_text-AreRooted :
    (arg : Text) (s : Settings) (otherwise : Result Settings)
    → AreRooted s
    → Holds AreRooted otherwise
    → Holds AreRooted (set_text arg s otherwise)
unfolding set_text
set_text-AreRooted arg s otherwise h k =
    Holds-if AreRooted (has_prefix (codes "-cache-dir=") arg) _ _ (λ _. h)
      λ _.
        Holds-if AreRooted (has_prefix (codes "-listen-mode=") arg) _ _ (λ _. h)
          λ _.
            Holds-if AreRooted (has_prefix (codes "-unix-path=") arg) _ _ (λ _. h)
              λ _.
                Holds-if AreRooted (has_prefix (codes "-proxy=") arg) _ _
                  (λ _.
                    Holds-bind IsRooted AreRooted (rooted (value_of (codes "-proxy=") arg)) _
                      (rooted-IsRooted (value_of (codes "-proxy=") arg)) λ proxy r. (r, h.1))
                  λ _.
                    Holds-if AreRooted (has_prefix (codes "-base-url=") arg) _ _
                      (λ _.
                        Holds-bind IsRooted AreRooted (rooted (value_of (codes "-base-url=") arg)) _
                          (rooted-IsRooted (value_of (codes "-base-url=") arg)) λ url r. (h.0, r))
                      λ _.
                        Holds-if AreRooted (has_prefix (codes "-host-file=") arg) _ _ (λ _. h)
                          λ _. k

-- Whatever the arguments are, if those before them left the proxy and the base address empty or with a
-- slash in front, they are so behind them, unless the process ends.
pub parser_arguments-AreRooted :
    (args : List Text) (s : Settings) → AreRooted s → Holds AreRooted (parser_arguments args s)
unfolding parser_arguments parse_argument
parser_arguments-AreRooted [] s h = h
parser_arguments-AreRooted (arg ∷ args) s h =
    Holds-bind AreRooted AreRooted (parse_argument arg s) (parser_arguments args)
      (set_number-AreRooted arg s _ h
        (set_text-AreRooted arg s (ok (set_flag arg s)) h (set_flag-AreRooted arg s h)))
      (parser_arguments-AreRooted args)
