-- ===== src/Server/Cut.antt =====
-- src/Server.cpp, `FetchHeader`: what a well-formed request is cut into.
use cdn_uring.Prelude.{
  drop-append, ℕ, zero, suc, ◌+◌, ◌<◌, ◌≡◌, ◌∙◌, ◌^◌, refl, sym, ap, ap₂, false, some, [], ◌∷◌,
  ◌++◌, length, drop, take, arith, length-append, append_assoc, ◌==◌, ==_refl, le→leb, leb, subst,
}
use native.Mathlib.Nat.{mod-eq_of_lt}
use cdn_uring.Prelude.Text.{Text, codes, matches, find, substr, add_size, c_str}
use cdn_uring.Prelude.Text.First.{IsFirst, NoneBefore, search_by-first, take-append, matches_self}
use cdn_uring.Prelude.Text.NoNul.{NoNul, NoNul-append, c_str-append, c_str-plain}
use cdn_uring.Prelude.Result.{ok, ◌>>=◌}
use cdn_uring.Headers.{crlf}
use cdn_uring.Server.Parse.{ends_header, scan, host_line, cut_header, fetch_header, strcpy}

-- A line end and an empty line.
abbrev pub empty_line : Text
empty_line = codes "\r\n\r\n"

ends_header-matches : (s : Text) → ends_header s ≡ matches ◌==◌ empty_line s
unfolding ends_header matches
ends_header-matches [] = refl
ends_header-matches (a ∷ []) = refl
ends_header-matches (a ∷ b ∷ []) = refl
ends_header-matches (a ∷ b ∷ c ∷ []) = refl
ends_header-matches (a ∷ b ∷ c ∷ d ∷ s) = ground arith

scan-first :
    (n i offset : ℕ) (s : Text)
    → i < n
    → IsFirst ◌==◌ empty_line s i
    → scan n s offset ≡ offset + (i + 2)
unfolding scan
scan-first zero i offset s lt f = absurd (omega arith)
scan-first (suc n) zero offset s lt f = rw (ends_header-matches s, f.here) (omega arith)
scan-first (suc n) (suc i) offset [] lt f = absurd (omega (arith, f.inside))
scan-first (suc n) (suc i) offset (c ∷ s) lt f =
    rw (ends_header-matches (c ∷ s), f.before 0 (omega arith))
      (scan-first n i (offset + 1) s (omega arith) (record {
        inside = omega (arith, f.inside);
        here = f.here;
        before = λ j l. f.before (suc j) (omega arith);
      })
        ∙ omega arith)

-- A search for a line end, or the host line, that stands behind `P`.
find-behind :
    (pat P T : Text)
    → NoneBefore ◌==◌ pat (P ++ (pat ++ T)) (length P)
    → find (P ++ (pat ++ T)) pat ≡ some (length P)
find-behind pat P T before =
    search_by-first ◌==◌ pat (P ++ (pat ++ T)) (length P)
      (omega (arith, length-append P (pat ++ T))) before
      (rw (drop-append P (pat ++ T)) (matches_self ◌==◌ ==_refl pat T))

-- The text behind a pattern that stands behind `P`.
substr-behind :
    (pat P T : Text)
    → length P + length pat < 2 ^ 64
    → substr (P ++ (pat ++ T)) (add_size (length P) (length pat)) ≡ ok T
unfolding substr
substr-behind pat P T small =
    rw
      (
        mod-eq_of_lt small,
        le→leb (length P + length pat) (length (P ++ (pat ++ T)))
            (omega (arith, length-append P (pat ++ T), length-append pat T)),
      )
      (ap ok (
        ap₂ drop (sym (length-append P pat)) (sym (append_assoc P pat T))
        ∙ drop-append (P ++ pat) T))

strcpy-plain : (cap : ℕ) (s : Text) → NoNul s → length s < cap → strcpy cap s ≡ ok s
strcpy-plain cap s plain fits = rw (c_str-plain s plain) (ground arith)

-- A header without a NUL: a command line, a text, `Host: ` with the rest of its line, and a text, one
-- after the other, each up to the first place where the next one can begin.
pub record IsRequest (command before host after : Text) : Type 0 where
  pub plain_command : NoNul command
  pub plain_before : NoNul before
  pub plain_host : NoNul host
  pub plain_after : NoNul after
  pub command_end :
      NoneBefore ◌==◌ crlf
        (command ++ (crlf ++ (before ++ (host_line ++ (host ++ (crlf ++ after))))))
        (length command)
  pub host_first :
      NoneBefore ◌==◌ host_line (before ++ (host_line ++ (host ++ (crlf ++ after)))) (length before)
  pub host_end : NoneBefore ◌==◌ crlf (host ++ (crlf ++ after)) (length host)

-- The header up to its empty line.
abbrev pub request_text : Text → Text → Text → Text → Text
request_text command before host after =
    command ++ (crlf ++ (before ++ (host_line ++ (host ++ (crlf ++ after)))))

module _ (command before host after : Text) (r : IsRequest command before host after) where
  length-request_text :
      length (request_text command before host after)
      ≡ length command + 2 + length before + 6 + length host + 2 + length after
  length-request_text = omega (
    arith,
    length-append command (crlf ++ (before ++ (host_line ++ (host ++ (crlf ++ after))))),
    length-append before (host_line ++ (host ++ (crlf ++ after))),
    length-append host (crlf ++ after),
  )

  cut_header-cuts :
      (dest_sz : ℕ)
      → length (request_text command before host after) < dest_sz
      → dest_sz < 2 ^ 64
      → cut_header dest_sz (request_text command before host after) ≡ ok (command, before ++ after)
  unfolding cut_header
  cut_header-cuts dest_sz fits small = rw (find-behind crlf command behind_command r.command_end) (
      rw (substr-behind crlf command behind_command (omega (arith, length-request_text)), ◌>>=◌)
        (rw (find-behind host_line before behind_before r.host_first) (
          rw
            (
              substr-behind host_line before behind_before (omega (arith, length-request_text)),
              ◌>>=◌,
            )
            (rw (find-behind crlf host after r.host_end) (
              rw (substr-behind crlf host after (omega (arith, length-request_text)), ◌>>=◌)
                (rw
                  (
                    take-append command (crlf ++ behind_command),
                    strcpy-plain dest_sz command r.plain_command
                        (omega (arith, length-request_text)),
                    ◌>>=◌,
                  )
                  (rw
                    (
                      take-append before (host_line ++ behind_before),
                      strcpy-plain dest_sz (before ++ after)
                          (NoNul-append before after r.plain_before r.plain_after)
                          (omega (arith, length-request_text, length-append before after)),
                      ◌>>=◌,
                    )
                    refl)))))))
    where
      behind_before : Text
      behind_before = host ++ (crlf ++ after)

      behind_command : Text
      behind_command = before ++ (host_line ++ behind_before)

  request_text-NoNul : NoNul (request_text command before host after)
  request_text-NoNul =
      NoNul-append command (crlf ++ (before ++ (host_line ++ (host ++ (crlf ++ after)))))
        r.plain_command
        (NoNul-append crlf (before ++ (host_line ++ (host ++ (crlf ++ after)))) (omega arith) (
          NoNul-append before (host_line ++ (host ++ (crlf ++ after))) r.plain_before (
            NoNul-append host_line (host ++ (crlf ++ after)) (omega arith) (
              NoNul-append host (crlf ++ after) r.plain_host
                (NoNul-append crlf after (omega arith) r.plain_after)))))

  -- A request without a NUL in its header, whose first empty line is the one that ends the header, where
  -- the header fits the block and `Host: ` stands behind the command line: the result is the command
  -- line, and the text from the next line on without what stands from the first `Host: ` to the end of
  -- that line, whatever follows the empty line.
  pub fetch_header-cuts :
      (header rest : Text) (dest_sz : ℕ)
      → request_text command before host after ≡ header ++ crlf
      → NoneBefore ◌==◌ empty_line (header ++ (empty_line ++ rest)) (length header)
      → length header + 2 < dest_sz
      → dest_sz < 2 ^ 64
      → fetch_header (header ++ (empty_line ++ rest)) dest_sz ≡ ok (some (command, before ++ after))
  unfolding fetch_header
  fetch_header-cuts header rest dest_sz ends first fits small = rw scanned (
      rw (not_full) (
        rw (head_of)
          (rw (cut_header-cuts dest_sz (rw ends (omega (arith, sizes))) small, ◌>>=◌) refl)))
    where
      source : Text
      source = header ++ (empty_line ++ rest)

      sizes : length (header ++ crlf) ≡ length header + 2
      sizes = omega (arith, length-append header crlf)

      at_header : IsFirst ◌==◌ empty_line source (length header)
      at_header = record {
        inside = omega (arith, length-append header (empty_line ++ rest));
        here =
            rw (drop-append header (empty_line ++ rest))
              (matches_self ◌==◌ ==_refl empty_line rest);
        before = first;
      }

      scanned : scan dest_sz source 0 ≡ length header + 2
      scanned = scan-first dest_sz (length header) 0 source (omega arith) at_header ∙ omega arith

      not_full : leb dest_sz (length header + 2) ≡ false
      not_full = ground arith

      head_of : take (length header + 2) (c_str source) ≡ request_text command before host after
      head_of =
          ap₂ take (sym sizes) (
            ap c_str (sym (append_assoc header crlf (crlf ++ rest)))
            ∙ c_str-append (header ++ crlf) (crlf ++ rest) (subst NoNul ends request_text-NoNul))
          ∙ take-append (header ++ crlf) (c_str (crlf ++ rest))
          ∙ sym ends
