-- ===== src/Policy/AllowList/Tools.antt =====
-- Narrowing a list of tools.
use Prim.Native.Char.{Char, code}
use Prim.Native.String.{◌∷◌ as cons, [] as nil, ◌++◌ as join}
use text.Mathlib.TextLemmas.{nil-append, cons-append}
use text.Mathlib.TextEquality.{Char-path}
use keera_gateway.Base.{
  String, Bool, true, false, Option, none, some, List, [], ◌∷◌, ◌&&◌, ◌||◌, ◌==◌, nat_eq, string_eq,
  ◌≡◌, refl, ◌∙◌, arith, contains, any, text_eq_iff, text_eq_self, has_char, has_prefix, ap,
}
use keera_gateway.Policy.AllowList.{kept, intersect_tools, tool_covers, allows_tool}
use keera_gateway.Policy.AllowList.Models.{is_kept, any_kept, contains-narrow_list}

-- The name of one tool of a server, in a list.
abbrev pub tool_entry : String → String → String
tool_entry server tool = join server (join "/" tool)

abbrev slash : Char
slash = "/"

slash-join : (t : String) → join "/" t ≡ cons slash t
slash-join t = cc (cons-append slash nil t, nil-append t)

cons_injective : {c d : Char} {s t : String} → cons c s ≡ cons d t → (c ≡ d) × (s ≡ t)
cons_injective e = (cc, cc)

-- A text without a slash has no prefix that ends in one.
no_slash_prefix :
    (s a : String) → has_char b'/' s ≡ false → has_prefix s (join a (cons slash nil)) ≡ false
unfolding has_prefix has_char
no_slash_prefix nil nil h = ap (has_prefix nil) (nil-append (cons slash nil))
no_slash_prefix nil (cons d a) h = ap (has_prefix nil) (cons-append d a (cons slash nil))
no_slash_prefix (cons c s) nil h =
    ap (has_prefix (cons c s)) (nil-append (cons slash nil)) ∙ ground arith
no_slash_prefix (cons c s) (cons d a) h =
    ap (has_prefix (cons c s)) (cons-append d a (cons slash nil))
    ∙ ground (arith, no_slash_prefix s a)

-- Before a slash each, one name is a prefix of the other only if they are the same.
slash_prefix :
    (s a t : String)
    → has_char b'/' s ≡ false
    → has_char b'/' a ≡ false
    → has_prefix (join s (cons slash t)) (join a (cons slash nil)) ≡ true
    → a ≡ s
unfolding has_prefix has_char
slash_prefix nil nil t h k p = refl
slash_prefix nil (cons d a) t h k p =
    let p' = rw (cons-append d a (cons slash nil), nil-append (cons slash t)) at p in
    absurd (ground arith)
slash_prefix (cons c s) nil t h k p =
    let p' = rw (nil-append (cons slash nil), cons-append c s (cons slash t)) at p in
    absurd (ground arith)
slash_prefix (cons c s) (cons d a) t h k p =
    let p' = rw (cons-append d a (cons slash nil), cons-append c s (cons slash t)) at p in
    let same : code c ≡ code d = ground arith in
    let first = Char-path c d same in
    let rest = slash_prefix s a t (ground arith) (ground arith) (ground arith) in cc (first, rest)

slash_prefix_self :
    (s t : String) → has_prefix (join s (cons slash t)) (join s (cons slash nil)) ≡ true
unfolding has_prefix
slash_prefix_self nil t =
    rw (nil-append (cons slash t))
      (ap (has_prefix (cons slash t)) (nil-append (cons slash nil)) ∙ ground arith)
slash_prefix_self (cons c s) t = rw (cons-append c s (cons slash t)) (
    ap (has_prefix (cons c (join s (cons slash t)))) (cons-append c s (cons slash nil))
    ∙ ground (arith, slash_prefix_self s t))

-- A tool's name in a list holds a slash.
has_char-entry : (s t : String) → has_char b'/' (join s (cons slash t)) ≡ true
unfolding has_char
has_char-entry nil t = ap (has_char b'/') (nil-append (cons slash t)) ∙ ground arith
has_char-entry (cons c s) t =
    ap (has_char b'/') (cons-append c s (cons slash t)) ∙ ground (arith, has_char-entry s t)

-- A disjunction under `any`, where each disjunct is one side of a conjunction.
mix_left :
    (f g k h f' g' h' : Bool)
    → (f || g) ≡ (k && h)
    → (f' || g') ≡ (k && h')
    → ((f || f') || (g || g')) ≡ (k && (h || h'))
mix_left f g k h f' g' h' p q = ground arith

mix_right :
    (f g m h f' g' h' : Bool)
    → (f || g) ≡ (h && m)
    → (f' || g') ≡ (h' && m)
    → ((f || f') || (g || g')) ≡ ((h || h') && m)
mix_right f g m h f' g' h' p q = ground arith

any_left :
    (f g h : String → Bool) (k : Bool)
    → ((b : String) → (f b || g b) ≡ (k && h b))
    → (l : List String) → (any f l || any g l) ≡ (k && any h l)
any_left f g h k p [] = ground arith
any_left f g h k p (b ∷ l) =
    mix_left (f b) (g b) k (h b) (any f l) (any g l) (any h l) (p b) (any_left f g h k p l)

any_right :
    (f g h : String → Bool) (m : Bool)
    → ((b : String) → (f b || g b) ≡ (h b && m))
    → (l : List String) → (any f l || any g l) ≡ (any h l && m)
any_right f g h m p [] = refl
any_right f g h m p (b ∷ l) =
    mix_right (f b) (g b) m (h b) (any f l) (any g l) (any h l) (p b) (any_right f g h m p l)

-- What covers a server, and what covers one of its tools.
module _ (server tool : String) (plain : has_char b'/' server ≡ false) where
  covers-server : (a : String) → tool_covers a server ≡ (a == server)
  unfolding tool_covers
  covers-server a = ground (arith, rw (slash-join nil) at (no_slash_prefix server a plain))

  covers-tool :
      (a : String)
      → tool_covers a (tool_entry server tool) ≡ (a == server || a == tool_entry server tool)
  unfolding tool_covers
  covers-tool a = rw (slash-join tool) (
      ground (
        arith,
        text_eq_iff a server,
        slash_prefix server a tool plain,
        slash_prefix_self server tool,
        has_char-entry server tool,
      ))

  -- Whether an entry allows the tool.
  abbrev names : String → Bool
  names a = a == server || a == tool_entry server tool

  entry-ne-server : tool_entry server tool ≡ server → ⊥
  entry-ne-server e =
      let h : has_char b'/' (tool_entry server tool) ≡ true =
        rw (slash-join tool) (has_char-entry server tool) in
      cc (rw e at h, plain)

  -- A pair of entries keeps an entry that allows the tool exactly when both allow it.
  kept-names :
      (a b : String)
      → (is_kept (kept tool_covers a b) server
          || is_kept (kept tool_covers a b) (tool_entry server tool))
        ≡ (names a && names b)
  unfolding kept
  kept-names a b = ground (
    arith,
    covers-server a,
    covers-server b,
    covers-tool a,
    covers-tool b,
    text_eq_iff a server,
    text_eq_iff b server,
    text_eq_iff a (tool_entry server tool),
    text_eq_iff b (tool_entry server tool),
    text_eq_self (tool_entry server tool),
    text_eq_self server,
    covers-tool server,
    covers-server (tool_entry server tool),
    entry-ne-server,
  )

  inner_names :
      (a : String) (next : List String)
      → (any (λ b. is_kept (kept tool_covers a b) server) next
          || any (λ b. is_kept (kept tool_covers a b) (tool_entry server tool)) next)
        ≡ (names a && any names next)
  inner_names a next =
      any_left (λ b. is_kept (kept tool_covers a b) server)
        (λ b. is_kept (kept tool_covers a b) (tool_entry server tool)) names (names a)
        (kept-names a) next

  outer_names :
      (cur next : List String)
      → (any_kept tool_covers server cur next
          || any_kept tool_covers (tool_entry server tool) cur next)
        ≡ (any names cur && any names next)
  outer_names cur next =
      any_right (λ a. any (λ b. is_kept (kept tool_covers a b) server) next)
        (λ a. any (λ b. is_kept (kept tool_covers a b) (tool_entry server tool)) next) names
        (any names next) (λ a. inner_names a next) cur

  contains-names :
      (l : List String) → (contains l server || contains l (tool_entry server tool)) ≡ any names l
  unfolding contains
  contains-names [] = refl
  contains-names (a ∷ l) = ground (arith, contains-names l)

  -- Narrowing a list of tools allows a server's tool exactly when both lists allow it, by naming
  -- the server or the tool, where a list that is not there allows everything; a server's name has
  -- no slash. A whole server and one of its tools meet in the tool.
  pub allows_tool-intersect_tools :
      (cur next : Option (List String))
      → allows_tool (intersect_tools cur next) server tool
        ≡ (allows_tool cur server tool && allows_tool next server tool)
  unfolding allows_tool intersect_tools
  allows_tool-intersect_tools none none = refl
  allows_tool-intersect_tools none (some next) = refl
  allows_tool-intersect_tools (some cur) none = ground arith
  allows_tool-intersect_tools (some cur) (some next) =
      rw
        (
          contains-narrow_list tool_covers server cur next,
          contains-narrow_list tool_covers (tool_entry server tool) cur next,
          outer_names cur next,
          contains-names cur,
          contains-names next,
        )
        refl
