-- ===== src/Python.antt =====
-- Values of unknown type, as decoded JSON and parameters annotated `object` are. `opaque` stands for
-- every value of a type that the code tests against none of the others, a float among them.
use sns_media_list.Prelude.{ℕ, String, Bool}

-- `negsuc n` is -(n + 1).
pub data ℤ : Type 0 where
  pos : ℕ → ℤ
  negsuc : ℕ → ℤ

mutual
  pub data Value : Type 0 where
    null : Value
    boolean : Bool → Value
    integer : ℤ → Value
    text : String → Value
    array : Values → Value
    fixed : Values → Value
    object : Fields → Value
    opaque : Value

  pub data Values : Type 0 where
    nil : Values
    cons : Value → Values → Values

  pub data Fields : Type 0 where
    end : Fields
    field : String → Value → Fields → Fields
