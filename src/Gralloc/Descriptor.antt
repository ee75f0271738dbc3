-- ===== src/Gralloc/Descriptor.antt =====
-- gr_buf_descriptor.h: the descriptor of a buffer and its seven words.
use platform_hardware_qcom_d.Base.{
  ℕ, ◌+◌, ◌*◌, ◌/◌, ◌<◌, ◌==◌, if◌then◌else◌, List, [], ◌∷◌, ◌≡◌, ◌↔◌, length, get_elem?, arith,
  some,
}
use platform_hardware_qcom_d.Gralloc.Words.{word, word_modulus}

-- android::hardware::graphics::mapper::V2_0::Error, as far as gralloc returns it.
pub data Error : Type 0 where
  no_error bad_descriptor bad_buffer bad_value no_resources unsupported : Error

-- kMagicVersion.
abbrev magic_version : ℕ
magic_version = 1982934576

-- IMapper::BufferDescriptorInfo: a format is the word of its enumerator, a usage 64 bits.
pub record BufferDescriptorInfo : Type 0 where
  pub width : ℕ
  pub height : ℕ
  pub layer_count : ℕ
  pub format : ℕ
  pub usage : ℕ

-- BufferDescriptor. An `int` is its 32-bit word.
pub record BufferDescriptor : Type 0 where
  pub width : ℕ
  pub height : ℕ
  pub format : ℕ
  pub layer_count : ℕ
  pub usage : ℕ
  pub id : ℕ

-- BufferDescriptor(id), with -1 for the fields that are not set.
unfoldable pub new_descriptor : ℕ → BufferDescriptor
new_descriptor id = record {
  width = 4294967295;
  height = 4294967295;
  format = 4294967295;
  layer_count = 1;
  usage = 0;
  id = id;
}

-- Encode.
unfoldable pub encode : BufferDescriptorInfo → List ℕ
encode bd_info =
    magic_version
    ∷ bd_info.width
    ∷ bd_info.height
    ∷ bd_info.layer_count
    ∷ word bd_info.format
    ∷ word bd_info.usage
    ∷ word (bd_info.usage / word_modulus)
    ∷ []

-- Decode: the error, and the descriptor that it leaves.
unfoldable pub decode : BufferDescriptor → List ℕ → Error × BufferDescriptor
decode d (magic ∷ width ∷ height ∷ layer_count ∷ format ∷ low ∷ high ∷ []) =
    if magic == magic_version
    then (
      no_error,
      record d {
        width = width;
        height = height;
        layer_count = layer_count;
        format = format;
        usage = high * word_modulus + low;
      },
    )
    else (bad_descriptor, d)
decode d _ = (bad_descriptor, d)

-- The fields fit their C types.
unfoldable pub FitsWords : BufferDescriptorInfo → Type 0
FitsWords bd_info = (bd_info.format < 4294967296) × (bd_info.usage < 18446744073709551616)

-- Decoding what Encode wrote for an info that fits its C types gives NONE, and a descriptor with
-- the five fields of the info, whatever the descriptor held, under its own id.
pub decode-encode :
    (d : BufferDescriptor) (bd_info : BufferDescriptorInfo)
    → FitsWords bd_info
    → decode d (encode bd_info) ≡ (
      no_error,
      record {
        width = bd_info.width;
        height = bd_info.height;
        format = bd_info.format;
        layer_count = bd_info.layer_count;
        usage = bd_info.usage;
        id = d.id;
      },
    )
unfolding decode encode FitsWords
decode-encode d bd_info h = ground arith

-- Seven words, of which the first is the magic number.
pub IsEncoding : List ℕ → Type 0
IsEncoding words = (length words ≡ 7) × (get_elem? words 0 ≡ some magic_version)

-- Decode gives NONE exactly on a vector of seven words that starts with the magic number. On every
-- other vector it gives BAD_DESCRIPTOR and leaves the descriptor as it was.
pub decode_error :
    (d : BufferDescriptor) (words : List ℕ)
    → (((decode d words).0 ≡ no_error) ↔ IsEncoding words)
      × ((IsEncoding words → ⊥) → decode d words ≡ (bad_descriptor, d))
unfolding decode IsEncoding
decode_error d [] = ground arith
decode_error d (a ∷ []) = ground arith
decode_error d (a ∷ b ∷ []) = ground arith
decode_error d (a ∷ b ∷ c ∷ []) = ground arith
decode_error d (a ∷ b ∷ c ∷ e ∷ []) = ground arith
decode_error d (a ∷ b ∷ c ∷ e ∷ f ∷ []) = ground arith
decode_error d (a ∷ b ∷ c ∷ e ∷ f ∷ g ∷ []) = ground arith
decode_error d (a ∷ b ∷ c ∷ e ∷ f ∷ g ∷ h ∷ []) = ground arith
decode_error d (a ∷ b ∷ c ∷ e ∷ f ∷ g ∷ h ∷ i ∷ rest) = ground arith
