-- ===== src/Analyzer.antt =====
-- The analyzer (backend/internal/analyzer): the search for the critical attack paths.
pub mod Weights
pub mod Adjacency
pub mod Heap
pub mod Dijkstra
pub mod Paths
pub mod Critical
pub mod WhatIf
pub mod Alternatives
pub mod Yen
