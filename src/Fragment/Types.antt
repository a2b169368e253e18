-- ===== src/Fragment/Types.antt =====
-- The fragment of v2/pkg/fragment/fragment.go: a protocol fragment with its local file, if any.
use gazette.Prelude.{ℕ, Option}
use gazette.Protocol.Fragment.{Fragment}

-- A file is known by a number that stands for the handle.
pub record LocalFragment : Type 0 where
  pub proto : Fragment
  pub open proto use *
  pub file : Option ℕ
