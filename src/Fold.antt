-- ===== src/Fold.antt =====
-- board/fold: the pure fold of the artifact store's records into dispatches and intents.
-- Record and Entry hold the data, Winner and Groups the two halves of algorithm.go, Algorithm the
-- fold itself, Loaders the files it is configured from; the other modules prove.
pub mod Record
pub mod Entry
pub mod Winner
pub mod Groups
pub mod Algorithm
pub mod Loaders
pub mod Ranking
pub mod Grouping
pub mod Subjects
pub mod Rounds
pub mod Surfaces
pub mod Contract
pub mod Budget
pub mod Outcomes
pub mod Ageless
pub mod Discovery
