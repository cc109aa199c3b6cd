-- ===== src/Errnos.antt =====
-- implementations/slims/slims/slims.go: errors that bear the number of a fault, and the two ways to ask an error
-- for such a number.
use Prim.Native.String.{◌∷◌ as char_cons, [] as no_chars, ◌++◌ as append}
use Prim.Native.String.append.{cons as append_cons}
use Prim.Native.Char.{code}
use orv.Base.{
  ◌≡◌, refl, arith, Bool, true, false, ◌||◌, String, Option, none, some, ◌==◌, nat_eq, text_eq,
  if◌then◌else◌, Eq,
}
use orv.Base.Map.{beq_refl}
use orv.Vk.State.{Errno}
use orv.Client.{FaultError}

-- An error of Go: an `Errno`, or another with its text.
pub data GoError : Type 0 where
  errno : FaultError → GoError
  other : String → GoError

-- `strings.HasPrefix(s, p)`
unfoldable pub has_prefix : String → String → Bool
has_prefix s no_chars = true
has_prefix no_chars (char_cons c p) = false
has_prefix (char_cons d s) (char_cons c p) =
    let rest = has_prefix s p in if code d == code c then rest else false

-- `strings.Contains(s, p)`
unfoldable pub contains_text : String → String → Bool
contains_text no_chars p = has_prefix "" p
contains_text (char_cons c s) p = has_prefix (char_cons c s) p || contains_text s p

-- `number_text` is `strconv.FormatInt` of the number that protoc gives an errno, to the base ten.
module _ (number_text : Errno → String) ⦃same : Eq Errno⦄ where
  -- `Error` of an `Errno`.
  unfoldable pub errno_text : FaultError → String
  errno_text e =
      if e.additional_info == ""
      then number_text e.num
      else append (number_text e.num) (append " (" (append e.additional_info ")"))

  abbrev pub error_text : GoError → String
  error_text (errno e) = errno_text e
  error_text (other s) = s

  -- `Is`, for a target that may be nil.
  unfoldable pub errno_is : FaultError → Option GoError → Bool
  errno_is e none = false
  errno_is e (some (other s)) = false
  errno_is e (some (errno t)) = t.num == e.num

  -- `ErrContainsErrno`
  unfoldable pub err_contains_errno : Option GoError → Errno → Bool
  err_contains_errno none n = false
  err_contains_errno (some err) n = contains_text (error_text err) (number_text n)

  has_prefix-append : (p s : String) → has_prefix (append p s) p ≡ true
  unfolding has_prefix
  has_prefix-append no_chars s = refl
  has_prefix-append (char_cons c p) s =
      rw (append_cons c p s) (ground (arith, beq_refl (code c), has_prefix-append p s))

  has_prefix_refl : (p : String) → has_prefix p p ≡ true
  unfolding has_prefix
  has_prefix_refl no_chars = refl
  has_prefix_refl (char_cons c p) = ground (arith, beq_refl (code c), has_prefix_refl p)

  has_prefix-errno_text : (e : FaultError) → has_prefix (errno_text e) (number_text e.num) ≡ true
  unfolding errno_text
  has_prefix-errno_text e = ground (
    arith,
    has_prefix_refl (number_text e.num),
    has_prefix-append (number_text e.num) (append " (" (append e.additional_info ")")),
  )

  has_prefix-contains_text : (s p : String) → has_prefix s p ≡ true → contains_text s p ≡ true
  unfolding contains_text
  has_prefix-contains_text no_chars p h = h
  has_prefix-contains_text (char_cons c s) p h = ground (arith, h)

  -- An error for which `Is` says that it is a fault also contains its number; that the number is contained
  -- does not mean that it is the fault.
  pub errno_is-contains :
      (e : FaultError) (target : Option GoError)
      → errno_is e target ≡ true
      → err_contains_errno target e.num ≡ true
  unfolding errno_is err_contains_errno
  errno_is-contains e none h = cc
  errno_is-contains e (some (other s)) h = cc
  errno_is-contains e (some (errno t)) h =
      rw⁻¹ ((same.beq_iff t.num e.num).0 h)
        (has_prefix-contains_text (errno_text t) (number_text t.num) (has_prefix-errno_text t))
