-- ===== src/Mdns/Types.antt =====
-- The types and the byte order of include/ai-camera/mdns/dns_message.h. Text is a list of bytes. The
-- host is little-endian, as the conversions of the source take for granted: a 16-bit field in memory
-- is its low byte and then its high byte.
use ai_camera.Base.{ℕ, ◌+◌, ◌*◌, ◌/◌, ◌%◌, Bool, not, List, [], ◌∷◌, ◌==◌, if◌then◌else◌, get_or}
use Prim.Native.Nat.{bit_and, bit_or}

pub record DnsHeader : Type 0 where
  pub id : ℕ
  pub flags : ℕ
  pub qdcount : ℕ
  pub ancount : ℕ
  pub nscount : ℕ
  pub arcount : ℕ

unfoldable pub ntohs : ℕ → ℕ
ntohs x = x / 256 + x % 256 * 256

abbrev pub htons : ℕ → ℕ
unfolding ntohs
htons x = ntohs x

unfoldable pub ntohl : ℕ → ℕ
unfolding ntohs
ntohl x = ntohs (x % 65536) * 65536 + ntohs (x / 65536)

abbrev pub htonl : ℕ → ℕ
unfolding ntohl
htonl x = ntohl x

-- `IsQuery` and `IsResponse`.
unfoldable pub is_query : DnsHeader → Bool
is_query h = bit_and (ntohs h.flags) 0x8000 == 0

unfoldable pub is_response : DnsHeader → Bool
is_response h = not (bit_and (ntohs h.flags) 0x8000 == 0)

-- `SetQR`.
unfoldable pub set_qr : DnsHeader → Bool → DnsHeader
set_qr h response = record h {
  flags =
      htons (if response then bit_or (ntohs h.flags) 0x8000 else bit_and (ntohs h.flags) 0x7fff);
}

pub record DnsQuestion : Type 0 where
  pub name : List ℕ
  pub kind : ℕ
  pub class : ℕ

-- The fields that every record has.
pub record Resource : Type 0 where
  pub name : List ℕ
  pub kind : ℕ
  pub class : ℕ
  pub ttl : ℕ
  pub content : List ℕ

-- What `std::make_shared` makes of them.
abbrev pub blank : Resource
blank = record { name = []; kind = 0; class = 0; ttl = 0; content = [] }

-- The fields of the derived records; a map is a list of its keys with their values.
pub data Extra : Type 0 where
  plain : Extra
  a_record : List ℕ → Extra
  ptr_record : List ℕ → Extra
  srv_record : ℕ → ℕ → ℕ → List ℕ → Extra
  txt_record : List (List ℕ × List ℕ) → Extra

pub record DnsRecord : Type 0 where
  pub resource : Resource
  pub extra : Extra

pub record DnsMessage : Type 0 where
  pub header : DnsHeader
  pub questions : List DnsQuestion
  pub answers : List DnsRecord
  pub authority : List DnsRecord
  pub additional : List DnsRecord

-- What a function of the codec does: it returns, it throws, or it has not returned after as many
-- rounds and calls as there is fuel.
pub data Result {ℓ} (A : Type ℓ) : Type ℓ where
  ok : A → Result A
  thrown out_of_fuel : Result A

infixl 20 ◌>>=◌
abbrev pub ◌>>=◌ {ℓ κ} : {A : Type ℓ} {B : Type κ} → Result A → (A → Result B) → Result B
ok a >>= f = f a
thrown >>= f = thrown
out_of_fuel >>= f = out_of_fuel

-- The bytes of a 16-bit and of a 32-bit field in memory, and a 16-bit and a 32-bit field read.
abbrev pub store16 : ℕ → List ℕ
store16 x = x % 256 ∷ x / 256 % 256 ∷ []

abbrev pub store32 : ℕ → List ℕ
store32 x = x % 256 ∷ x / 256 % 256 ∷ x / 65536 % 256 ∷ x / 16777216 % 256 ∷ []

abbrev pub load16 : List ℕ → ℕ → ℕ
load16 bytes i = get_or bytes i 0 + get_or bytes (i + 1) 0 * 256

abbrev pub load32 : List ℕ → ℕ → ℕ
load32 bytes i = load16 bytes i + load16 bytes (i + 2) * 65536
