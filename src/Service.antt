-- ===== src/Service.antt =====
-- src/GraphQLService.cpp and include/graphqlservice/GraphQLService.h: how errors become values, and
-- which fields the directives @skip and @include take out.
pub mod Errors
pub mod ErrorPaths
pub mod Directives
pub mod Literals
pub mod SkipInclude
pub mod SkipDecision
mod Examples
