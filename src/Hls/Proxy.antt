-- ===== src/Hls/Proxy.antt =====
-- src/HLSStream.cpp, `ProcessChannel`: the loop that replaces the proxy.
use cdn_uring.Prelude.{
  ℕ, zero, suc, ◌+◌, ◌≤◌, ◌<◌, ◌==◌, ◌≡◌, ap, inl, inr, none, ◌++◌, length, take, drop, arith,
  length-take, length-drop, length-append,
}
use cdn_uring.Prelude.Text.{Text, find}
use cdn_uring.Prelude.Text.First.{IsFirst, search_by-IsFirst, matches-split}
use cdn_uring.Prelude.Result.{ok}
use cdn_uring.Hls.Channel.{replace_all}

-- What is found ends within the text.
find-fits : (s pat : Text) (i : ℕ) → IsFirst ◌==◌ pat s i → i + length pat ≤ length s
find-fits s pat i f =
    let (t, e) = matches-split pat (drop i s) f.here in
    omega (arith, f.inside, length-drop i s, ap length e, length-append pat t)

-- A text with something shorter in place of a part of it.
length-replaced :
    (content base_url proxy : Text) (i : ℕ)
    → i + length proxy ≤ length content
    → length (take i content ++ (base_url ++ drop (i + length proxy) content)) + length proxy
      ≡ length content + length base_url
length-replaced content base_url proxy i fits = omega (
  arith,
  length-append (take i content) (base_url ++ drop (i + length proxy) content),
  length-append base_url (drop (i + length proxy) content),
  length-take i content,
  length-drop (i + length proxy) content,
)

-- In a text that is no longer than the rounds, with an address that is shorter than the proxy, the loop
-- ends, and the proxy does not stand in what it leaves.
pub replace_all-ends :
    (proxy base_url : Text) (rounds : ℕ) (content : Text)
    → length base_url < length proxy
    → length content ≤ rounds
    → (replaced : Text) × (replace_all proxy base_url rounds content ≡ ok replaced)
      × (find replaced proxy ≡ none)
unfolding replace_all
replace_all-ends proxy base_url zero content shorter fits =
    elim (search_by-IsFirst ◌==◌ proxy content) [
      | inl (e, _) ↦ (content, rw (replace_all, e), e)
      | inr (i, e, f) ↦ absurd (omega (arith, find-fits content proxy i f))
    ]
replace_all-ends proxy base_url (suc rounds) content shorter fits =
    elim (search_by-IsFirst ◌==◌ proxy content) [
      | inl (e, _) ↦ (content, rw (replace_all, e), e)
      | inr (i, e, f) ↦
          let next = take i content ++ (base_url ++ drop (i + length proxy) content) in
          let (replaced, ends, gone) = replace_all-ends proxy base_url rounds next shorter (
            omega (
              arith,
              find-fits content proxy i f,
              length-replaced content base_url proxy i (find-fits content proxy i f),
            )) in
          (replaced, rw (replace_all, e) ends, gone)
    ]
