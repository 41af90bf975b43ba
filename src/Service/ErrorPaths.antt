-- ===== src/Service/ErrorPaths.antt =====
-- The order of the segments that buildErrorPath returns.
use cppgraphqlgen.Base.{List, [], ◌∷◌, ◌++◌, append_assoc, ◌≡◌, refl, some}
use cppgraphqlgen.Service.Errors.{
  PathSegment, FieldPath, root_path, child_path, push_segments, build_error_path,
}

push_segments-append :
    (path : FieldPath) (segments : List PathSegment)
    → push_segments path segments ≡ push_segments path [] ++ segments
unfolding push_segments
push_segments-append (root_path s) segments = refl
push_segments-append (child_path parent s) segments =
    rw (
      push_segments-append parent (s ∷ segments),
      push_segments-append parent (s ∷ []),
      append_assoc,
    )

-- The error path of a field is the error path of its parent followed by its own segment, and a field
-- without a parent has its own segment alone.
pub build_error_path-child :
    (parent : FieldPath) (segment : PathSegment)
    → (build_error_path (some (root_path segment)) ≡ segment ∷ [])
      × (build_error_path (some (child_path parent segment))
          ≡ build_error_path (some parent) ++ segment ∷ [])
unfolding build_error_path push_segments
build_error_path-child parent segment = (refl, push_segments-append parent (segment ∷ []))
