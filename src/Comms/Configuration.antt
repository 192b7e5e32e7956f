-- ===== src/Comms/Configuration.antt =====
-- include/crisp/comms/Configuration.hh and src/comms/Configuration.cc: the modules of a device.
pub mod Codec
pub mod Errors
pub mod Tests
use robocrisp.Base.{ℕ, zero, suc, ◌+◌, ◌%◌, Bool, ◌&&◌, List, [], ◌∷◌, ◌++◌, get_or, take, ◌==◌}
use robocrisp.Comms.Buffer.{DecodeBuffer, DecodeResult, write, read}
use robocrisp.Comms.Encoder.{Encoder, ◌>>◌, done, each}
use robocrisp.Comms.Module
use robocrisp.Comms.Module.{Module, all_equal}

pub record Configuration : Type 0 where
  pub num_modules : ℕ
  pub modules : List Module
  pub next_module_id : ℕ

-- `offsetof(Configuration, modules)`.
abbrev pub header_size : ℕ
header_size = 1

-- `Configuration()`, which `reset` makes of any configuration.
abbrev pub blank : Configuration
blank = record { num_modules = 0; modules = []; next_module_id = 0 }

-- `add_module`, for the arguments of a module's constructor that made `m`; the counters are
-- `uint8_t`.
unfoldable pub add_module : Configuration → Module → Configuration
add_module c m = record {
  num_modules = (c.num_modules + 1) % 256;
  modules = c.modules ++ record m { id = c.next_module_id } ∷ [];
  next_module_id = (c.next_module_id + 1) % 256;
}

-- The loop of `get_encoded_size` over the first `n` modules.
unfoldable pub size_of_first : ℕ → List Module → ℕ
size_of_first zero ms = 0
size_of_first (suc n) [] = 0
size_of_first (suc n) (m ∷ ms) = Module.get_encoded_size m + size_of_first n ms

unfoldable pub get_encoded_size : Configuration → ℕ
get_encoded_size c = header_size + size_of_first c.num_modules c.modules

-- `encode` goes through the container, not through the first `num_modules`.
unfoldable pub encode : Configuration → Encoder
encode c = (λ b. write b (c.num_modules ∷ [])) >> each Module.encode c.modules >> done

-- One round of the loop of `decode`: `if ( (r = modules.emplace().decode(buf)) != SUCCESS ) return r;`
abbrev pub then_modules :
    DecodeResult × Module × DecodeBuffer
    → (DecodeBuffer → DecodeResult × List Module × DecodeBuffer)
    → DecodeResult × List Module × DecodeBuffer
then_modules (DecodeResult.success, m, b) rest = let (r, ms, b') = rest b in (r, m ∷ ms, b')
then_modules (r, m, b) rest = (r, m ∷ [], b)

-- The loop itself, `n` times.
unfoldable pub decode_modules :
    (ℕ → List ℕ) → ℕ → DecodeBuffer → DecodeResult × List Module × DecodeBuffer
decode_modules fresh zero b = (DecodeResult.success, [], b)
decode_modules fresh (suc n) b =
    then_modules (Module.decode fresh Module.blank b) (decode_modules fresh n)

-- `num_modules` was read: `return r`, or the loop.
abbrev pub then_count :
    DecodeResult × List ℕ × DecodeBuffer
    → (ℕ → DecodeBuffer → DecodeResult × List Module × DecodeBuffer)
    → DecodeResult × Configuration × DecodeBuffer
then_count (DecodeResult.success, bytes, b) loop =
    let n = get_or bytes 0 0 in
    let (r, ms, b') = loop n b in (r, record blank { num_modules = n; modules = ms }, b')
then_count (r, bytes, b) loop = (r, record blank { num_modules = get_or bytes 0 0 }, b)

-- `decode`, which begins with `reset`.
unfoldable pub decode :
    (ℕ → List ℕ) → Configuration → DecodeBuffer → DecodeResult × Configuration × DecodeBuffer
decode fresh old b = then_count (read b header_size (blank.num_modules ∷ [])) (decode_modules fresh)

-- `operator ==`.
unfoldable pub equal : Configuration → Configuration → Bool
equal c d =
    c.num_modules == d.num_modules && all_equal Module.equal c.num_modules c.modules d.modules
